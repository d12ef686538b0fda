-- ===== src/Scheduler/Examples.antt =====
-- Runs of scheduler.go.
use buildkit_multipartable.Base.{
  ◌+◌, ◌≡◌, refl, List, [], ◌∷◌, Bytes, codes, length, select, none, some, true, arith,
}
use buildkit_multipartable.Scheduler.{
  Scheduler, new, idle, register_worker, mark_worker_busy, has, overlap, count_cached, count_new,
  assign_build, walk, visit, find_worker, put_worker, hash_key, fnv1a, search_loop, at_or_after,
  WorkerState, busy,
}
use buildkit_multipartable.Scheduler.Assign.{Assigns, assign_build_correct}
use buildkit_multipartable.Scheduler.Shape.{IsShaped, new-IsShaped, register_worker-IsShaped}
use buildkit_multipartable.Scheduler.Steps.{registers, busies, here, next, Reach-new-IsShaped}
use buildkit_multipartable.Scheduler.Overlap.{overlap_jaccard}

abbrev one_idle : Scheduler
one_idle = register_worker (codes "w") idle [] new

assign_build_correct_example : Assigns (codes "f") one_idle
assign_build_correct_example =
    assign_build_correct (codes "f") one_idle
      (register_worker-IsShaped new new-IsShaped (codes "w") idle [])

Reach-new-IsShaped_example : IsShaped (mark_worker_busy (codes "w") one_idle)
Reach-new-IsShaped_example =
    Reach-new-IsShaped (next (next here (registers (codes "w") idle [])) (busies (codes "w")))

abbrev instrs : List Bytes
instrs = codes "RUN a" ∷ codes "RUN b" ∷ []

abbrev cache : List Bytes
cache = codes "RUN b" ∷ codes "RUN c" ∷ []

one_of_three : overlap instrs cache ≡ (1, 3)
unfolding overlap count_cached count_new buildkit_multipartable.Base.Text.eqb
one_of_three = refl

overlap_jaccard_example :
    ((overlap instrs cache).0 ≡ length (select (has instrs) cache))
    × ((overlap instrs cache).0 + (overlap instrs cache).1 ≡ length instrs + length cache)
    × (overlap instrs cache ≡ overlap cache instrs)
unfolding buildkit_multipartable.Base.Text.eqb
overlap_jaccard_example = overlap_jaccard instrs cache (refl, (refl, tt)) (refl, (refl, tt))

-- A ring of two nodes whose workers are busy and idle.
abbrev worker_of : Bytes → Bytes → WorkerState
worker_of id status = record { id = id; status = status; cache_keys = []; load = 0 }

abbrev small : Scheduler
small = record {
  ring =
      record { hash = 3; worker_id = codes "a" } ∷ record { hash = 9; worker_id = codes "b" } ∷ [];
  workers = worker_of (codes "a") busy ∷ worker_of (codes "b") idle ∷ [];
}

second_taken :
    assign_build (codes "f") small
    ≡ some (
      record small {
        workers =
            worker_of (codes "a") busy ∷ record (worker_of (codes "b") busy) { load = 1 } ∷ [];
      },
      some (codes "b"),
    )
unfolding assign_build walk visit find_worker put_worker hash_key fnv1a search_loop at_or_after
    buildkit_multipartable.Base.Text.eqb
second_taken = refl
