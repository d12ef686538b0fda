-- ===== src/Service/Taken.antt =====
-- Builds that no call of the services makes pending.
use buildkit_multipartable.Base.{
  ℕ, ◌≡◌, refl, subst, Bool, true, false, Option, none, some, List, [], ◌∷◌, Bytes, codes, eqb,
  Bool-cases, Option-cases, inl, inr, Result, ok, err, not, Float64, if◌then◌else◌,
}
use buildkit_multipartable.Domain
use buildkit_multipartable.Domain.{Build, building, cancelled}
use buildkit_multipartable.Validate.{valid}
use buildkit_multipartable.Queue
use buildkit_multipartable.Repo
use buildkit_multipartable.Repo.{
  Db, find_row, update_status, create, list_pending, is_pending, assign_row,
}
use buildkit_multipartable.Repo.Taken.{IsTaken, update_status-IsTaken, create-IsTaken}
use buildkit_multipartable.Service.{
  State, Submission, from_repo, new_build, created, submit_begin, submit_finish, claimed, claim,
  peek, refill, assign_build, completed, cancelled_in, is_cancellable, cancel_row, cancel_build,
  warm_with, heartbeat, prune_stale, push_all,
}

module _ (id : Bytes) where
  -- The build stays taken in the state that a call leaves.
  abbrev pub TakenIn {ℓ} : {R : Type ℓ} → Option (State × R) → Type 0
  TakenIn none = Unit
  TakenIn (some p) = IsTaken id p.0.db

  pub taken_in {ℓ} :
      {R : Type ℓ} {o : Option (State × R)} {t : State} {r : R}
      → TakenIn o
      → o ≡ some (t, r)
      → IsTaken id t.db
  taken_in l e = subst TakenIn e l

  either {ℓ} :
      {R : Type ℓ} (b : Bool) (p q : State × R)
      → IsTaken id p.0.db
      → IsTaken id q.0.db
      → IsTaken id (if b then p else q).0.db
  either true p q v w = v
  either false p q v w = w

  module _ (s : State) (v : IsTaken id s.db) where
    created-IsTaken :
        (p : Db × Build × Result Repo.Error (Unit {0}))
        → IsTaken id p.0
        → IsTaken id (created s p).0.db
    unfolding created
    created-IsTaken (d, b, err e) w = w
    created-IsTaken (d, b, ok _) w = w

    pub submit_begin-IsTaken :
        (sha256 : Bytes → Bytes) (uuid : Bytes) (up : Bool) (now : ℕ) (sub : Submission)
        → eqb (new_build sha256 uuid sub).id id ≡ false
        → IsTaken id (submit_begin sha256 uuid up now sub s).0.db
    unfolding submit_begin
    submit_begin-IsTaken sha256 uuid up now sub ne = either (not (valid _)) _ _ v (
        either (Queue.full s.queue) _ _ v (
          created-IsTaken (create up now (new_build sha256 uuid sub) s.db)
            (create-IsTaken id s.db v up now (new_build sha256 uuid sub) ne)))

    pub submit_finish-TakenIn :
        (up : Bool) (now : ℕ) (b : Build) → TakenIn (submit_finish up now b s)
    unfolding submit_finish
    submit_finish-TakenIn up now b = elim (Option-cases (Queue.push s.queue b)) [
      | inl e ↦ rw e tt
      | inr ((q, pushed), e) ↦ rw e (elim (Bool-cases pushed) [
        | inl f ↦ rw f v
        | inr f ↦ rw f (update_status-IsTaken id s.db v up now b.id _ [] [] _ refl)
      ])
    ]

    claimed-IsTaken :
        (worker_id : Bytes) (b : Build) (p : Db × Result Repo.Error (Unit {0}))
        → IsTaken id p.0
        → IsTaken id (claimed worker_id b s p).0.db
    unfolding claimed
    claimed-IsTaken worker_id b (d, err e) w = w
    claimed-IsTaken worker_id b (d, ok _) w = w

    claim-IsTaken :
        (up : Bool) (now : ℕ) (worker_id : Bytes) (b : Build)
        → IsTaken id (claim up now worker_id b s).0.db
    unfolding claim
    claim-IsTaken up now worker_id b =
        claimed-IsTaken worker_id b _
          (update_status-IsTaken id s.db v up now b.id building worker_id [] [] refl)

    pub completed-IsTaken :
        (up2 : Bool) (i : Bytes) (p : Db × Result Repo.Error (Unit {0}))
        → IsTaken id p.0
        → IsTaken id (completed up2 i s p).0.db
    unfolding completed
    completed-IsTaken up2 i (d, err e) w = w
    completed-IsTaken up2 i (d, ok _) w = w

    cancelled_in-IsTaken :
        (p : Db × Result Repo.Error (Unit {0}))
        → IsTaken id p.0
        → IsTaken id (cancelled_in s p).0.db
    unfolding cancelled_in
    cancelled_in-IsTaken (d, err e) w = w
    cancelled_in-IsTaken (d, ok _) w = w

    pub warm_with-TakenIn : (r : Result Repo.Error (List Build)) → TakenIn (warm_with s r)
    unfolding warm_with
    warm_with-TakenIn (err e) = v
    warm_with-TakenIn (ok builds) = elim (Option-cases (push_all s.queue 0 builds)) [
      | inl e ↦ rw e tt
      | inr (p, e) ↦ rw e v
    ]

    pub heartbeat-IsTaken :
        (up : Bool) (now : ℕ) (w : Domain.Worker) → IsTaken id (heartbeat up now w s).0.db
    unfolding heartbeat Repo.upsert
    heartbeat-IsTaken false now w = v
    heartbeat-IsTaken true now w = v

    pub prune_stale-IsTaken :
        (up : Bool) (now max_age : ℕ) → IsTaken id (prune_stale up now max_age s).0.db
    unfolding prune_stale Repo.mark_offline
    prune_stale-IsTaken false now max_age = v
    prune_stale-IsTaken true now max_age = v

  cancel_row-TakenIn :
      (s : State)
      → IsTaken id s.db
      → (up2 : Bool) (now : ℕ) (i : Bytes) (r : Build) → TakenIn (cancel_row up2 now i s r)
  unfolding cancel_row
  cancel_row-TakenIn s v up2 now i r = elim (Bool-cases (is_cancellable r.status)) [
    | inr e ↦ rw e v
    | inl e ↦ elim (Option-cases (Queue.remove s.queue i)) [
      | inl f ↦ rw (e, f) tt
      | inr ((q, removed), f) ↦
          rw (e, f)
            (cancelled_in-IsTaken (record s { queue = q }) v _
              (update_status-IsTaken id s.db v up2 now i cancelled [] [] (codes "cancelled by user")
                refl))
    ]
  ]

  pub cancel_build-TakenIn :
      (s : State)
      → IsTaken id s.db
      → (up up2 : Bool) (now : ℕ) (i : Bytes) → TakenIn (cancel_build up up2 now i s)
  unfolding cancel_build
  cancel_build-TakenIn s v up up2 now i =
      elim (Repo.get up i s.db)
        as (λ g.
          TakenIn
            (elim g [ err e ↦ some (s, err (from_repo e)) | ok b ↦ cancel_row up2 now i s b ])) [
              | err e ↦ v
              | ok b ↦ cancel_row-TakenIn s v up2 now i b
            ]

  module _ (fl : Float64) (up up2 : Bool) (now : ℕ) (worker_id : Bytes) where
    refill-TakenIn :
        (s : State)
        → IsTaken id s.db
        → (first : Build) (rest : List Build)
        → TakenIn (refill fl up up2 now worker_id first rest s)
    unfolding refill
    refill-TakenIn s v first rest = elim (Option-cases (push_all s.queue 0 (first ∷ rest))) [
      | inl e ↦ rw e tt
      | inr ((q, count), e) ↦ elim (Option-cases (peek fl up up2 now worker_id s.scheduler q)) [
        | inl f ↦ rw (e, f) tt
        | inr ((q', found), f) ↦
            rw (e, f) (claim-IsTaken (record s { queue = q' }) v up2 now worker_id _)
      ]
    ]

    drained-TakenIn :
        (s : State)
        → IsTaken id s.db
        → (r : Result Repo.Error (List Build))
        → TakenIn (elim r [
          | err e ↦ some (s, ok none)
          | ok builds ↦ elim builds [
            | [] ↦ some (s, ok none)
            | first ∷ rest ↦ refill fl up up2 now worker_id first rest s
          ]
        ])
    drained-TakenIn s v (err e) = v
    drained-TakenIn s v (ok []) = v
    drained-TakenIn s v (ok (first ∷ rest)) = refill-TakenIn s v first rest

    pub assign_build-TakenIn :
        (s : State) → IsTaken id s.db → TakenIn (assign_build fl up up2 now worker_id s)
    unfolding assign_build
    assign_build-TakenIn s v =
        elim (Option-cases (peek fl up up2 now worker_id s.scheduler s.queue)) [
          | inl e ↦ rw e tt
          | inr ((q, some b), e) ↦
              rw e (claim-IsTaken (record s { queue = q }) v up2 now worker_id b)
          | inr ((q, none), e) ↦
              rw e (drained-TakenIn (record s { queue = q }) v (list_pending up s.db))
        ]
