-- ===== src/Service/Sound.antt =====
-- What a single call of the services preserves.
use buildkit_multipartable.Base.{
  ℕ, ◌≡◌, refl, subst, Bool, true, false, List, [], ◌∷◌, Option, none, some, Bytes, codes,
  Bool-cases, inl, inr, Result, ok, err, eqb, not, Float64, if◌then◌else◌,
}
use buildkit_multipartable.Domain.{Build, Worker, cancelled}
use buildkit_multipartable.Validate.{valid}
use buildkit_multipartable.Queue
use buildkit_multipartable.Queue.{Queue, IsValid}
use buildkit_multipartable.Queue.Insert.{push-Cases}
use buildkit_multipartable.Queue.Extract.{remove_correct}
use buildkit_multipartable.Queue.Score.{peek_by_score_correct}
use buildkit_multipartable.Repo
use buildkit_multipartable.Repo.{Db, update_status, create, list_pending, is_building, is_unset}
use buildkit_multipartable.Repo.Steps as Calls
use buildkit_multipartable.Repo.Steps.{is_report}
use buildkit_multipartable.Repo.Shape.{IsWellFormed, Step-IsWellFormed}
use buildkit_multipartable.Scheduler.{score_build_for_worker}
use buildkit_multipartable.Scheduler.Shape.{
  IsShaped, register_worker-IsShaped, mark_worker_idle-IsShaped,
}
use buildkit_multipartable.Service.{
  State, from_repo, Submission, new_build, created, submit_begin, submit_finish, claimed, claim,
  peek, refill, assign_build, free_worker, completed, cancelled_in, cancel_row, cancel_build,
  is_cancellable, warm_with, heartbeat,
}
use buildkit_multipartable.Service.Tasks.{push_all_fills}

-- The queue, the tables and the scheduler keep their invariants.
pub record IsSound (s : State) : Type 0 where
  pub queue : IsValid s.queue
  pub db : IsWellFormed s.db
  pub scheduler : IsShaped s.scheduler

-- The state that a call leaves is sound, unless it panics.
abbrev pub Leaves {ℓ} : {R : Type ℓ} → Option (State × R) → Type 0
Leaves none = Unit
Leaves (some p) = IsSound p.0

pub leaves {ℓ} :
    {R : Type ℓ} {o : Option (State × R)} {t : State} {r : R}
    → Leaves o
    → o ≡ some (t, r)
    → IsSound t
leaves l e = subst Leaves e l

either {ℓ} :
    {R : Type ℓ} (b : Bool) (p q : State × R)
    → IsSound p.0
    → IsSound q.0
    → IsSound (if b then p else q).0
either true p q v w = v
either false p q v w = w

module _ (s : State) (v : IsSound s) where
  pub with_db :
      {d : Db} (step : Calls.Step s.db d) → Calls.Reported step → IsSound (record s { db = d })
  with_db step h = record {
    queue = v.queue;
    db = Step-IsWellFormed step h v.db;
    scheduler = v.scheduler;
  }

  with_queue : (q : Queue) → IsValid q → IsSound (record s { queue = q })
  with_queue q w = record { queue = w; db = v.db; scheduler = v.scheduler }

  created-IsSound :
      (p : Db × Build × Result Repo.Error (Unit {0}))
      → IsSound (record s { db = p.0 })
      → IsSound (created s p).0
  unfolding created
  created-IsSound (d, b, err e) w = w
  created-IsSound (d, b, ok _) w = w

  pub submit_begin-IsSound :
      (sha256 : Bytes → Bytes) (uuid : Bytes) (up : Bool) (now : ℕ) (sub : Submission)
      → IsSound (submit_begin sha256 uuid up now sub s).0
  unfolding submit_begin new_build create
  submit_begin-IsSound sha256 uuid up now sub = either (not (valid _)) _ _ v (
      either (Queue.full s.queue) _ _ v (
        created-IsSound (create up now (new_build sha256 uuid sub) s.db) (
          with_db (unfold new_build in Calls.creates up now (new_build sha256 uuid sub) refl refl)
            tt)))

  pub submit_finish-Leaves : (up : Bool) (now : ℕ) (b : Build) → Leaves (submit_finish up now b s)
  unfolding submit_finish
  submit_finish-Leaves up now b = elim (push-Cases s.queue b v.queue) [
    | inl (full, run) ↦
        rw run
          (with_db (Calls.updates up now b.id _ [] [] (codes "queue full at submit time")) refl)
    | inr (room, q, run, p) ↦ rw run (with_queue q p.valid)
  ]

  claimed-IsSound :
      (worker_id : Bytes) (b : Build) (p : Db × Result Repo.Error (Unit {0}))
      → IsSound (record s { db = p.0 })
      → IsSound (claimed worker_id b s p).0
  unfolding claimed
  claimed-IsSound worker_id b (d, err e) w = w
  claimed-IsSound worker_id b (d, ok _) w = w

  claim-IsSound :
      (up : Bool) (now : ℕ) (worker_id : Bytes) (b : Build) → IsSound (claim up now worker_id b s).0
  unfolding claim
  claim-IsSound up now worker_id b =
      claimed-IsSound worker_id b _ (with_db (Calls.updates up now b.id _ worker_id [] []) refl)

  free_worker-IsShaped : (r : Result Repo.Error Build) → IsShaped (free_worker r s.scheduler)
  unfolding free_worker
  free_worker-IsShaped (err e) = v.scheduler
  free_worker-IsShaped (ok b) = elim (Bool-cases (eqb b.worker_id [])) [
    | inl e ↦ rw e v.scheduler
    | inr e ↦
        rw e (mark_worker_idle-IsShaped s.scheduler v.scheduler b.worker_id (b.fingerprint ∷ []))
  ]

  pub completed-IsSound :
      (up2 : Bool) (id : Bytes) (p : Db × Result Repo.Error (Unit {0}))
      → IsSound (record s { db = p.0 })
      → IsSound (completed up2 id s p).0
  unfolding completed
  completed-IsSound up2 id (d, err e) w = w
  completed-IsSound up2 id (d, ok _) w = record {
    queue = w.queue;
    db = w.db;
    scheduler = free_worker-IsShaped (Repo.get up2 id d);
  }

  cancelled_in-IsSound :
      (p : Db × Result Repo.Error (Unit {0}))
      → IsSound (record s { db = p.0 })
      → IsSound (cancelled_in s p).0
  unfolding cancelled_in
  cancelled_in-IsSound (d, err e) w = w
  cancelled_in-IsSound (d, ok _) w = w

  pub warm_with-Leaves : (r : Result Repo.Error (List Build)) → Leaves (warm_with s r)
  unfolding warm_with
  warm_with-Leaves (err e) = v
  warm_with-Leaves (ok builds) =
      let (q, count, run, f) = push_all_fills s.queue 0 builds v.queue in
      rw run (with_queue q f.valid)

  pub heartbeat-IsSound : (up : Bool) (now : ℕ) (w : Worker) → IsSound (heartbeat up now w s).0
  unfolding heartbeat Repo.upsert
  heartbeat-IsSound false now w = v
  heartbeat-IsSound true now w = record {
    queue = v.queue;
    db = unfold Repo.upsert in Step-IsWellFormed (Calls.heartbeats true now w) tt v.db;
    scheduler = register_worker-IsShaped s.scheduler v.scheduler w.id w.status w.cache_keys;
  }

cancel_row-Leaves :
    (s : State) (v : IsSound s) (up2 : Bool) (now : ℕ) (id : Bytes) (r : Build)
    → Leaves (cancel_row up2 now id s r)
unfolding cancel_row
cancel_row-Leaves s v up2 now id r = elim (Bool-cases (is_cancellable r.status)) [
  | inr e ↦ rw e v
  | inl e ↦ elim (remove_correct s.queue id v.queue) [
    | inl (run, absent) ↦ rw (e, run) (after s v)
    | inr (q, t, run, removed, same) ↦
        rw (e, run) (after (record s { queue = q }) (with_queue s v q removed.valid))
  ]
]
  where
    after :
        (t : State)
        → IsSound t
        → IsSound
            (cancelled_in t
              (update_status up2 now id cancelled [] [] (codes "cancelled by user") t.db)).0
    after t w = cancelled_in-IsSound t w _ (with_db t w (Calls.updates up2 now id _ [] [] _) refl)

pub cancel_build-Leaves :
    (s : State) (v : IsSound s) (up up2 : Bool) (now : ℕ) (id : Bytes)
    → Leaves (cancel_build up up2 now id s)
unfolding cancel_build
cancel_build-Leaves s v up up2 now id =
    elim (Repo.get up id s.db)
      as (λ g.
        Leaves
          (elim g [ err e ↦ some (s, err (from_repo e)) | ok b ↦ cancel_row up2 now id s b ])) [
            | err e ↦ v
            | ok b ↦ cancel_row-Leaves s v up2 now id b
          ]

module _ (fl : Float64) (up up2 : Bool) (now : ℕ) (worker_id : Bytes) where
  refill-Leaves :
      (s : State) (v : IsSound s) (first : Build) (rest : List Build)
      → Leaves (refill fl up up2 now worker_id first rest s)
  unfolding refill peek
  refill-Leaves s v first rest =
      let (q, count, run, f) = push_all_fills s.queue 0 (first ∷ rest) v.queue in
      let best =
        peek_by_score_correct fl
          (λ b. score_build_for_worker fl b.instructions worker_id s.scheduler) q f.valid in
      elim best [
        | inl (none_left, run') ↦
            rw (run, run') (claim-IsSound _ (with_queue s v q f.valid) up2 now worker_id first)
        | inr (q', t, run', removed, score) ↦
            rw (run, run')
              (claim-IsSound _ (with_queue s v q' removed.valid) up2 now worker_id t.build)
      ]

  drained-Leaves :
      (s : State) (v : IsSound s) (r : Result Repo.Error (List Build))
      → Leaves (elim r [
        | err e ↦ some (s, ok none)
        | ok builds ↦ elim builds [
          | [] ↦ some (s, ok none)
          | first ∷ rest ↦ refill fl up up2 now worker_id first rest s
        ]
      ])
  drained-Leaves s v (err e) = v
  drained-Leaves s v (ok []) = v
  drained-Leaves s v (ok (first ∷ rest)) = refill-Leaves s v first rest

  pub assign_build-Leaves :
      (s : State) (v : IsSound s) → Leaves (assign_build fl up up2 now worker_id s)
  unfolding assign_build peek
  assign_build-Leaves s v =
      let best =
        peek_by_score_correct fl
          (λ b. score_build_for_worker fl b.instructions worker_id s.scheduler) s.queue v.queue in
      elim best [
        | inl (empty, run) ↦ rw run (drained-Leaves s v (list_pending up s.db))
        | inr (q, t, run, removed, score) ↦
            rw run (claim-IsSound _ (with_queue s v q removed.valid) up2 now worker_id t.build)
      ]
