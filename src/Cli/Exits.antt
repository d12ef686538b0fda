-- ===== src/Cli/Exits.antt =====
-- The exit code of main.
use buildkit_multipartable.Base.{
  ◌≡◌, refl, ◌↔◌, ◌⊎◌, false, List, ◌∷◌, Option, none, some, Bytes, codes, eqb, arith, Bool-cases,
  Option-cases, inl, inr, ◌==◌, Result, ok, err,
}
use buildkit_multipartable.Cli.{Request, Surroundings, Fault, cmd_submit}
use buildkit_multipartable.Cli.Answers.{Object, Json, Answer, end_submit, run, main}

-- The build was made and its answer read.
abbrev pub IsSubmitted : Json → (Request → Option Answer) → Result Fault Request → Type 0
IsSubmitted json server (err e) = ⊥
IsSubmitted json server (ok r) =
    (a : Answer) × (m : Object) × (server r ≡ some a)
    × (a.code ≡ 201)
    × (json.object a.body ≡ some m)

answered-exit :
    (json : Json) (a : Answer)
    → (end_submit json a).exit ≡ 0
    → (m : Object) × (a.code ≡ 201) × (json.object a.body ≡ some m)
unfolding end_submit
answered-exit json a e = elim (Option-cases (json.object a.body)) [
  | inl n ↦ absurd (fail_exit n e)
  | inr s ↦ elim (Bool-cases (a.code == 201)) [
    | inl c ↦ (s.0, ground (arith, c), s.1)
    | inr c ↦ absurd (code_exit s.0 s.1 c e)
  ]
]
  where
    fail_exit : json.object a.body ≡ none → (end_submit json a).exit ≡ 0 → ⊥
    fail_exit n e = ground (arith, n, e)

    code_exit :
        (m : Object)
        → json.object a.body ≡ some m
        → (a.code == 201) ≡ false
        → (end_submit json a).exit ≡ 0
        → ⊥
    code_exit m s c e = ground (arith, s, c, e)

run-exit :
    (json : Json) (server : Request → Option Answer) (req : Result Fault Request)
    → (run end_submit json server req).exit ≡ 0
    → IsSubmitted json server req
unfolding run
run-exit json server (err e) h = cc
run-exit json server (ok r) h = elim (Option-cases (server r)) [
  | inl n ↦ absurd (unanswered n h)
  | inr s ↦ let t = answered-exit json s.0 (answered s.0 s.1 h) in (s.0, t.0, s.1, t.1, t.2)
]
  where
    unanswered : server r ≡ none → (run end_submit json server (ok r)).exit ≡ 0 → ⊥
    unanswered n h = ground (arith, n, h)

    answered :
        (a : Answer)
        → server r ≡ some a
        → (run end_submit json server (ok r)).exit ≡ 0
        → (end_submit json a).exit ≡ 0
    answered a s h = ground (arith, s, h)

run-IsSubmitted :
    (json : Json) (server : Request → Option Answer) (req : Result Fault Request)
    → IsSubmitted json server req
    → (run end_submit json server req).exit ≡ 0
unfolding run end_submit
run-IsSubmitted json server (err e) h = absurd h
run-IsSubmitted json server (ok r) (a, m, s, c, o) = rw (run, s, end_submit, o, c) refl

run_exits :
    (json : Json) (server : Request → Option Answer) (req : Result Fault Request)
    → ((run end_submit json server req).exit ≡ 0) ⊎ ((run end_submit json server req).exit ≡ 1)
unfolding run end_submit
run_exits json server (err e) = inr refl
run_exits json server (ok r) = ground arith

-- `dtbuild submit` exits with 0 exactly if its arguments give a request, the server answers it with code
-- 201, and the body of the answer is an object; in all other cases, a bad command line, a Dockerfile or a
-- folder that cannot be read, no answer, another code, or another body, it exits with 1.
pub main-IsSubmitted :
    (w : Surroundings) (json : Json) (server : Request → Option Answer) (args : List Bytes)
    → ((main w json server (codes "submit" ∷ args)).exit ≡ 0
        ↔ IsSubmitted json server (cmd_submit w args))
      × (((main w json server (codes "submit" ∷ args)).exit ≡ 0)
          ⊎ ((main w json server (codes "submit" ∷ args)).exit ≡ 1))
unfolding main eqb
main-IsSubmitted w json server args = (
  (run-exit json server (cmd_submit w args), run-IsSubmitted json server (cmd_submit w args)),
  run_exits json server (cmd_submit w args),
)
