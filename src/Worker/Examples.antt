-- ===== src/Worker/Examples.antt =====
-- Runs of worker.go.
use buildkit_multipartable.Base.{
  ◌+◌, ◌≤◌, ◌≡◌, refl, true, false, List, [], ◌∷◌, Bytes, codes, none, some, length, All, arith,
}
use buildkit_multipartable.Worker.{add_cache_keys, complete_build, report}

third_try : complete_build (none ∷ some 500 ∷ some 200 ∷ []) ≡ (true, 3)
unfolding complete_build report
third_try = refl

-- Keys that are new go to the end.
added :
    add_cache_keys (codes "RUN a" ∷ codes "RUN b" ∷ []) (codes "RUN b" ∷ codes "RUN c" ∷ [])
    ≡ codes "RUN a" ∷ codes "RUN b" ∷ codes "RUN c" ∷ []
unfolding add_cache_keys buildkit_multipartable.Base.Text.eqb
added = refl
