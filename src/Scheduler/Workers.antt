-- ===== src/Scheduler/Workers.antt =====
-- The map of workers.
use buildkit_multipartable.Base.{
  ◌≡◌, refl, none, some, List, [], ◌∷◌, arith, Bytes, eqb, eqb_iff, if◌then◌else◌,
}
use buildkit_multipartable.Scheduler.{WorkerState, find_worker, put_worker, delete_worker}

pub find_worker-id :
    (id : Bytes) (ws : List WorkerState) (w : WorkerState) → find_worker id ws ≡ some w → w.id ≡ id
unfolding find_worker
find_worker-id id [] w e = cc
find_worker-id id (v ∷ vs) w e = ground (arith, eqb_iff v.id id, find_worker-id id vs w)

pub find_worker-put_worker :
    (id : Bytes) (w : WorkerState) (ws : List WorkerState)
    → find_worker id (put_worker w ws) ≡ (if eqb w.id id then some w else find_worker id ws)
unfolding find_worker put_worker
find_worker-put_worker id w [] = refl
find_worker-put_worker id w (v ∷ vs) =
    ground
      (arith, eqb_iff v.id id, eqb_iff v.id w.id, eqb_iff w.id id, find_worker-put_worker id w vs)

pub find_worker-delete_worker :
    (id j : Bytes) (ws : List WorkerState)
    → find_worker id (delete_worker j ws) ≡ (if eqb j id then none else find_worker id ws)
unfolding find_worker delete_worker
find_worker-delete_worker id j [] = ground arith
find_worker-delete_worker id j (v ∷ vs) =
    ground (arith, eqb_iff v.id id, eqb_iff v.id j, eqb_iff j id, find_worker-delete_worker id j vs)
