-- ===== src/Service/Finish.antt =====
-- CompleteBuild, CancelBuild and WarmQueue.
use buildkit_multipartable.Base.{
  ℕ, ◌≡◌, refl, Bool, true, false, not, ◌⊎◌, inl, inr, List, [], ◌∷◌, Option, some, none, Bytes,
  Mem, codes, if◌then◌else◌, Bool-cases, Option-cases, arith, Result, ok, err, eqb, ap, ◌∙◌, sym,
  subst,
}
use buildkit_multipartable.Domain.{Build, Status, cancelled, is_terminal}
use buildkit_multipartable.Queue.{Queue, IsValid}
use buildkit_multipartable.Queue.Heap.{Task}
use buildkit_multipartable.Queue.Extract.{Removed, remove_correct}
use buildkit_multipartable.Repo
use buildkit_multipartable.Repo.{
  Db, update_status, is_building, updated_rows, find_row, finish_row, get, list_pending,
}
use buildkit_multipartable.Repo.Update.{other_rows, finished_row, find_row-updated_rows}
use buildkit_multipartable.Scheduler.{Scheduler, mark_worker_idle}
use buildkit_multipartable.Service.{
  State, Failure, from_repo, not_cancellable, is_cancellable, free_worker, completed,
  complete_build, cancelled_in, cancel_row, cancel_build, warm_queue, warm_with,
}
use buildkit_multipartable.Service.Tasks.{Filled, push_all_fills}

terminal_not_building : (s : Status) → is_terminal s ≡ true → is_building s ≡ false
terminal_not_building s h = ground arith

cancellable_open : (s : Status) → is_cancellable s ≡ true → is_terminal s ≡ false
cancellable_open s h = ground arith

module _ (id : Bytes) (s : State) where
  -- What becomes of the row `r` of the build and of the others.
  pub record Replaces (r' : Build) (db' : Db) : Type 0 where
    pub row : find_row id db'.builds ≡ some r'
    pub others : (i : Bytes) → eqb i id ≡ false → find_row i db'.builds ≡ find_row i s.db.builds
    pub workers : db'.workers ≡ s.db.workers

  update-Replaces :
      (now : ℕ) (status : Status) (msg : Bytes) (r : Build)
      → is_terminal status ≡ true
      → find_row id s.db.builds ≡ some r
      → Replaces
          (if is_terminal r.status then r else finish_row now status [] [] msg r)
          (record s.db { builds = updated_rows now id status [] [] msg s.db.builds })
  update-Replaces now status msg r h e = record {
    row = finished_row now id status [] [] msg s.db.builds r h e;
    others = λ i. other_rows now id status [] [] msg i s.db.builds;
    workers = refl;
  }

get_down : (id : Bytes) (db : Db) → get false id db ≡ err Repo.unavailable
unfolding get
get_down id db = refl

get_unknown :
    (id : Bytes) (db : Db) → find_row id db.builds ≡ none → get true id db ≡ err Repo.no_rows
unfolding get
get_unknown id db e = rw e

get_known :
    (id : Bytes) (db : Db) (r : Build) → find_row id db.builds ≡ some r → get true id db ≡ ok r
unfolding get
get_known id db r e = rw e

module _ (up up2 : Bool) (now : ℕ) (id : Bytes) (s : State) where
  -- One task with the id is out of the queue, if there was one.
  abbrev pub Leaves : Queue → Type 0
  Leaves q =
      ((q ≡ s.queue) × ((t : Task) → Mem t s.queue.heap → eqb t.build.id id ≡ false))
      ⊎ ((t : Task) × Removed s.queue t q × (t.build.id ≡ id))

  abbrev pub message : Bytes
  message = codes "cancelled by user"

  -- The ways for CancelBuild to end.
  pub data Cancels : Option (State × Result Failure (Unit {0})) → Type 0 where
    unanswered : up ≡ false → Cancels (some (s, err (from_repo Repo.unavailable)))
    unknown : find_row id s.db.builds ≡ none → Cancels (some (s, err (from_repo Repo.no_rows)))
    refused :
        (r : Build)
        → find_row id s.db.builds ≡ some r
        → is_cancellable r.status ≡ false
        → Cancels (some (s, err not_cancellable))
    broken :
        up2 ≡ false
        → (q : Queue) → Leaves q
        → Cancels (some (record s { queue = q }, err (from_repo Repo.unavailable)))
    done :
        (r : Build)
        → find_row id s.db.builds ≡ some r
        → is_cancellable r.status ≡ true
        → (q : Queue) → Leaves q
        → (db' : Db) → Replaces id s (finish_row now cancelled [] [] message r) db'
        → Cancels (some (record s { queue = q; db = db' }, ok tt))

  update-Cancels :
      (r : Build)
      → find_row id s.db.builds ≡ some r
      → is_cancellable r.status ≡ true
      → (q : Queue) → Leaves q
      → (answers : Bool) → up2 ≡ answers
      → Cancels (
          some (
            cancelled_in
              (record s { queue = q })
              (update_status answers now id cancelled [] [] message s.db)))
  unfolding cancelled_in update_status
  update-Cancels r e c q out false h = broken h q out
  update-Cancels r e c q out true h =
      done r e c q out _
        (rw (cancellable_open r.status c) at (update-Replaces id s now cancelled message r refl e))

  row-Cancels :
      IsValid s.queue
      → (r : Build) → find_row id s.db.builds ≡ some r
      → Cancels (cancel_row up2 now id s r)
  unfolding cancel_row
  row-Cancels v r e = elim (Bool-cases (is_cancellable r.status)) [
    | inr not_so ↦ rw not_so (refused r e not_so)
    | inl can ↦ elim (remove_correct s.queue id v) [
      | inl (run, absent) ↦
          rw (can, run) (update-Cancels r e can s.queue (inl (refl, absent)) up2 refl)
      | inr (q, t, run, removed, same) ↦
          rw (can, run) (update-Cancels r e can q (inr (t, removed, same)) up2 refl)
    ]
  ]

  after_get : Result Repo.Error Build → Option (State × Result Failure (Unit {0}))
  after_get r = elim r [ err e ↦ some (s, err (from_repo e)) | ok b ↦ cancel_row up2 now id s b ]

  cancel_build-after_get :
      (r : Result Repo.Error Build)
      → get up id s.db ≡ r
      → cancel_build up up2 now id s ≡ after_get r
  unfolding cancel_build after_get
  cancel_build-after_get r e = ap after_get e

  -- On a valid queue CancelBuild does not panic. It ends with an error and changes nothing if the
  -- database does not answer, if the build is not known, or if it is neither pending nor building.
  -- Otherwise one task with the build's id leaves the queue, if there is one; and if the database still
  -- answers, the row of the build is cancelled with the message and the time, and all other rows and the
  -- workers stay as they are.
  pub cancel_build_correct : IsValid s.queue → Cancels (cancel_build up up2 now id s)
  cancel_build_correct v = elim (Bool-cases up) [
    | inr down ↦
        rw (cancel_build-after_get _ (ap (λ u. get u id s.db) down ∙ get_down id s.db))
          (unfold after_get in unanswered down)
    | inl answers ↦ elim (Option-cases (find_row id s.db.builds)) [
      | inl e ↦
          rw (cancel_build-after_get _ (ap (λ u. get u id s.db) answers ∙ get_unknown id s.db e))
            (unfold after_get in unknown e)
      | inr (r, e) ↦
          rw (cancel_build-after_get _ (ap (λ u. get u id s.db) answers ∙ get_known id s.db r e))
            (unfold after_get in row-Cancels v r e)
    ]
  ]

-- What CompleteBuild makes of the row `r` and the scheduler.
module _ (up2 : Bool) (now : ℕ) (id : Bytes) (status : Status) (msg : Bytes) (s : State) where
  -- the row, unless the build was over before
  abbrev pub over : Build → Build
  over r = if is_terminal r.status then r else finish_row now status [] [] msg r

  -- the worker of the row turns idle and is known to have the build's layers
  abbrev pub freed : Build → Scheduler
  freed r =
      if not up2
      then s.scheduler
      else if eqb r.worker_id []
      then s.scheduler
      else mark_worker_idle r.worker_id (r.fingerprint ∷ []) s.scheduler

  abbrev pub Completes : State × Result Failure (Unit {0}) → Type 0
  Completes p = (p.1 ≡ ok tt) × (p.0.queue ≡ s.queue) × (elim (find_row id s.db.builds) [
    | none ↦ p.0.scheduler ≡ s.scheduler
    | some r ↦ (p.0.scheduler ≡ freed r) × Replaces id s (over r) p.0.db
  ])

  abbrev updated : Db
  updated = record s.db { builds = updated_rows now id status [] [] msg s.db.builds }

  abbrev left : State
  left = record s { db = updated; scheduler = free_worker (get up2 id updated) s.scheduler }

  complete_build-left :
      is_terminal status ≡ true → complete_build true up2 now id status msg s ≡ (left, ok tt)
  unfolding complete_build completed update_status
  complete_build-left h = rw (terminal_not_building status h)

  over-scheduler :
      (r : Build)
      → (if eqb (over r).worker_id []
          then s.scheduler
          else mark_worker_idle (over r).worker_id ((over r).fingerprint ∷ []) s.scheduler)
        ≡ (if eqb r.worker_id []
            then s.scheduler
            else mark_worker_idle r.worker_id (r.fingerprint ∷ []) s.scheduler)
  unfolding finish_row eqb
  over-scheduler r = ground arith

  left-freed :
      (r : Build)
      → is_terminal status ≡ true
      → find_row id s.db.builds ≡ some r
      → (answers : Bool)
      → free_worker (get answers id updated) s.scheduler ≡ (
          if not answers
          then s.scheduler
          else if eqb r.worker_id []
          then s.scheduler
          else mark_worker_idle r.worker_id (r.fingerprint ∷ []) s.scheduler)
  unfolding free_worker
  left-freed r h e false = rw (get_down id updated)
  left-freed r h e true =
      rw (get_known id updated (over r) (finished_row now id status [] [] msg s.db.builds r h e))
        (over-scheduler r)

  left-kept :
      find_row id s.db.builds ≡ none
      → (answers : Bool) → free_worker (get answers id updated) s.scheduler ≡ s.scheduler
  unfolding free_worker
  left-kept e false = rw (get_down id updated)
  left-kept e true =
      let gone = find_row-updated_rows now id status [] [] msg id s.db.builds ∙ (rw e) in
      rw (get_unknown id updated gone)

  -- CompleteBuild with a terminal status, if the database answers its update, succeeds and leaves the
  -- queue alone. If the build has a row, the row gets the status, the message and the time unless it was
  -- terminal before, no other row changes, and the row's worker, if it has one and the database
  -- still answers, is marked idle with the build's fingerprint as its cache.
  pub complete_build_correct :
      is_terminal status ≡ true → Completes (complete_build true up2 now id status msg s)
  complete_build_correct h =
      subst Completes (sym (complete_build-left h)) (elim (Option-cases (find_row id s.db.builds)) [
        | inl e ↦ rw e (refl, refl, left-kept e up2)
        | inr (r, e) ↦
            rw e (refl, refl, (left-freed r h e up2, update-Replaces id s now status msg r h e))
      ])

-- How WarmQueue ends, by what ListPending returns.
abbrev pub Warms : Bool → State → Result Repo.Error (List Build) → Type 0
Warms up s (err e) = warm_queue up s ≡ some (s, err (from_repo e))
Warms up s (ok builds) =
    (q : Queue) × (count : ℕ) × (warm_queue up s ≡ some (record s { queue = q }, ok count))
    × Filled s.queue builds q count

warm_with-Warms :
    (up : Bool) (s : State) (r : Result Repo.Error (List Build))
    → IsValid s.queue
    → list_pending up s.db ≡ r
    → Warms up s r
unfolding warm_queue warm_with
warm_with-Warms up s (err e) v h = ap (warm_with s) h
warm_with-Warms up s (ok builds) v h =
    let (q, count, run, f) = push_all_fills s.queue 0 builds v in
    (
      q,
      count,
      ap (warm_with s) h ∙ (rw run (ap (λ n. some (record s { queue = q }, ok n)) (omega arith))),
      f,
    )

-- WarmQueue on a valid queue does not panic. It ends with an error and changes nothing if the database
-- does not answer. Otherwise it pushes the first builds of the listed pending rows, up to the first one
-- that finds the queue full, returns their number, and leaves the tables alone.
pub warm_queue_correct :
    (up : Bool) (s : State) → IsValid s.queue → Warms up s (list_pending up s.db)
warm_queue_correct up s v = warm_with-Warms up s (list_pending up s.db) v refl
