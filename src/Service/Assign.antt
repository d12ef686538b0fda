-- ===== src/Service/Assign.antt =====
-- AssignBuild.
use buildkit_multipartable.Base.{
  ℕ, zero, suc, ◌≡◌, refl, Bool, true, false, inl, inr, List, [], ◌∷◌, ◌++◌, Option, some, none,
  Bytes, Perm, length-perm, Bool-cases, arith, Result, ok, err, eqb, eqb_refl, ap, ◌∙◌, sym, subst,
  All, All-take, select, take, length, Float64, map,
}
use mathlib.Core.List.Perm
use mathlib.Core.Bool.{true≢false}
use mathlib.Core.List.{nil≢cons, mem-cons_self}
use buildkit_multipartable.Base.Sort.{sort, sort-perm, All-sort}
use buildkit_multipartable.Domain.{Build, building}
use buildkit_multipartable.Queue.{Queue, IsValid, task, full, len}
use buildkit_multipartable.Queue.Heap.{Task}
use buildkit_multipartable.Queue.Extract.{Removed}
use buildkit_multipartable.Queue.Score.{peek_by_score_correct}
use buildkit_multipartable.Repo
use buildkit_multipartable.Repo.{
  Db, update_status, find_row, is_pending, list_pending, most_urgent_first, assign_row,
  already_claimed,
}
use buildkit_multipartable.Repo.Rows.{HasKeys, Fresh, eqb_sym}
use buildkit_multipartable.Repo.Claims.{claim_correct, Claimed, is_free}
use buildkit_multipartable.Scheduler.{score_build_for_worker}
use buildkit_multipartable.Service.{
  State, Failure, from_repo, claim, claimed, peek, refill, assign_build,
}
use buildkit_multipartable.Service.Tasks.{Filled, push_all_fills, tasks_pass}

abbrev free_in : List Build → Build → Bool
free_in rows b = is_free (find_row b.id rows)

-- On distinct keys each row is found under its own key.
own_row : (rows : List Build) → HasKeys rows → All (λ r. find_row r.id rows ≡ some r) rows
unfolding find_row
own_row [] k = tt
own_row (x ∷ rs) k = (rw (eqb_refl x.id), later rs k.0 (own_row rs k.1))
  where
    later :
        (ys : List Build)
        → Fresh x.id ys
        → All (λ r. find_row r.id rs ≡ some r) ys
        → All (λ r. find_row r.id (x ∷ rs) ≡ some r) ys
    later [] f a = tt
    later (y ∷ ys) f a = (rw (eqb_sym x.id y.id, f.0) a.0, later ys f.1 a.1)

pending_free :
    (rows ys : List Build)
    → All (λ r. find_row r.id rows ≡ some r) ys
    → All (λ r. free_in rows r ≡ true) (select (λ r. is_pending r.status) ys)
pending_free rows [] a = tt
pending_free rows (y ∷ ys) a = elim (Bool-cases (is_pending y.status)) [
  | inl e ↦ rw (e, select) (rw (a.0) e, pending_free rows ys a.1)
  | inr e ↦ rw (e, select) (pending_free rows ys a.1)
]

-- The builds that ListPending returns are free.
abbrev pub listed : Db → List Build
listed db = take 100 (sort most_urgent_first (select (λ r. is_pending r.status) db.builds))

listed_free : (db : Db) → HasKeys db.builds → All (λ b. free_in db.builds b ≡ true) (listed db)
listed_free db k =
    All-take _ 100 _
      (All-sort most_urgent_first _ _ (pending_free db.builds db.builds (own_row db.builds k)))

-- The row `r` of the build `id` is claimed for the worker, and `db'` is left.
pub record Claims (now : ℕ) (worker_id id : Bytes) (db db' : Db) (r : Build) : Type 0 where
  pub found : find_row id db.builds ≡ some r
  pub free : is_pending r.status ≡ true
  pub taken : find_row id db'.builds ≡ some (assign_row now building worker_id [] [] r)
  pub others : (i : Bytes) → eqb i id ≡ false → find_row i db'.builds ≡ find_row i db.builds

module _ (up2 : Bool) (now : ℕ) (worker_id : Bytes) where
  abbrev pub given : Build → Build
  given b = record b { status = building; worker_id = worker_id }

  -- The ways for a claim in the state `t` to end.
  pub data Ends (b : Build) (t : State) : State × Result Failure (Option Build) → Type 0 where
    lost :
        (e : Repo.Error)
        → (up2 ≡ true → is_free (find_row b.id t.db.builds) ≡ false)
        → Ends b t (t, err (from_repo e))
    won :
        (r : Build) (db' : Db)
        → Claims now worker_id b.id t.db db' r
        → Ends b t (record t { db = db' }, ok (some (given b)))

  module _ (b : Build) (t : State) where
    abbrev Ended : Db × Result Repo.Error (Unit {0}) → Type 0
    Ended p = Ends b t (claimed worker_id b t p)

    abbrev attempt : Bool → Db × Result Repo.Error (Unit {0})
    attempt answers = update_status answers now b.id building worker_id [] [] t.db

    Claimed-Ends :
        up2 ≡ true
        → (o : Option Build) → find_row b.id t.db.builds ≡ o
        → Claimed t.db now b.id worker_id [] [] o
        → Ended (attempt true)
    unfolding claimed
    Claimed-Ends answers none e run =
        subst Ended (sym run) (lost already_claimed (λ _. ap is_free e))
    Claimed-Ends answers (some r) e (inl (taken, run)) =
        subst Ended (sym run) (lost already_claimed (λ _. ap is_free e ∙ taken))
    Claimed-Ends answers (some r) e (inr (free, run, found, others)) =
        subst Ended (sym (ap (λ x. ((attempt true).0, x)) run)) (
          won r (attempt true).0
            (record { found = e; free = free; taken = found; others = others }))

    claim-Ends : HasKeys t.db.builds → Ends b t (claim up2 now worker_id b t)
    unfolding claim claimed update_status
    claim-Ends k = elim (Bool-cases up2) [
      | inl e ↦
          subst (λ answers. Ended (attempt answers)) (sym e)
            (Claimed-Ends e (find_row b.id t.db.builds) refl
              (claim_correct t.db now b.id worker_id [] [] k))
      | inr e ↦
          subst (λ answers. Ended (attempt answers)) (sym e)
            (lost Repo.unavailable (λ e'. absurd (true≢false (sym e' ∙ e))))
    ]

take_none : {A : Type 0} (n : ℕ) (xs : List A) → take (suc n) xs ≡ [] → length xs ≡ 0
take_none n [] e = refl
take_none n (x ∷ xs) e = absurd (nil≢cons (sym e))

-- If ListPending returns no row, none is pending.
none_pending : (db : Db) → listed db ≡ [] → length (select (λ r. is_pending r.status) db.builds) ≡ 0
none_pending db e =
    sym (length-perm (sort-perm most_urgent_first (select (λ r. is_pending r.status) db.builds)))
    ∙ take_none 99 _ e

list_pending-listed :
    (up : Bool) (db : Db) (bs : List Build) → list_pending up db ≡ ok bs → listed db ≡ bs
unfolding list_pending
list_pending-listed false db bs e = cc
list_pending-listed true db bs e = cc

list_pending-down : (up : Bool) (db : Db) (e : Repo.Error) → list_pending up db ≡ err e → up ≡ false
unfolding list_pending
list_pending-down false db e h = refl
list_pending-down true db e h = cc

nil_of_length : {A : Type 0} (xs : List A) → length xs ≡ 0 → xs ≡ []
nil_of_length [] e = refl
nil_of_length (x ∷ xs) e = absurd (omega (arith, e))

module _ (fl : Float64) (up up2 : Bool) (now : ℕ) (worker_id : Bytes) (s : State) where
  -- The ways for AssignBuild to end.
  pub data Assigns : Option (State × Result Failure (Option Build)) → Type 0 where
    nothing :
        length s.queue.heap ≡ 0
        → (up ≡ true → length (select (λ r. is_pending r.status) s.db.builds) ≡ 0)
        → Assigns (some (s, ok none))
    from_queue :
        (t : Task) (q : Queue)
        → Removed s.queue t q
        → {p : State × Result Failure (Option Build)}
        → Ends up2 now worker_id t.build (record s { queue = q }) p
        → Assigns (some p)
    from_db :
        length s.queue.heap ≡ 0
        → (filled : Queue) (count : ℕ) → Filled s.queue (listed s.db) filled count
        → (t : Task) (q : Queue) → Removed filled t q
        → is_free (find_row t.build.id s.db.builds) ≡ true
        → {p : State × Result Failure (Option Build)}
        → Ends up2 now worker_id t.build (record s { queue = q }) p
        → Assigns (some p)

  -- A task that comes out of an empty queue filled with free builds is free.
  Filled-free :
      (bs : List Build) (q q' : Queue) (count : ℕ) (t : Task)
      → length s.queue.heap ≡ 0
      → All (λ b. free_in s.db.builds b ≡ true) bs
      → Filled s.queue bs q count
      → Removed q t q'
      → is_free (find_row t.build.id s.db.builds) ≡ true
  Filled-free bs q q' count t empty free f removed =
      tasks_pass (free_in s.db.builds) count bs t free (
        (Perm.mem_iff (
            subst (λ h. Perm q.heap (map task (take count bs) ++ h)) (nil_of_length _ empty)
              f.same)).0
          ((Perm.mem_iff removed.same).0 mem-cons_self))

  -- An empty queue that was filled with some builds is not empty.
  Filled-some :
      (first : Build) (rest : List Build) (q : Queue) (count : ℕ)
      → Filled s.queue (first ∷ rest) q count
      → length q.heap ≡ 0
      → ⊥
  unfolding full len
  Filled-some first rest q zero f none_left = elim (f.stopped) [
    | inl all ↦ ground (arith, all)
    | inr no_room ↦ ground (arith, no_room, none_left)
  ]
  Filled-some first rest q (suc n) f none_left = ground (arith, length-perm f.same, none_left)

  refill-Assigns :
      IsValid s.queue
      → HasKeys s.db.builds
      → length s.queue.heap ≡ 0
      → (first : Build) (rest : List Build) → listed s.db ≡ first ∷ rest
      → Assigns (refill fl up up2 now worker_id first rest s)
  unfolding refill peek
  refill-Assigns v k empty first rest e =
      let (q, count, run, f) = push_all_fills s.queue 0 (first ∷ rest) v in
      let free = subst (All (λ b. free_in s.db.builds b ≡ true)) e (listed_free s.db k) in
      let held = subst (λ bs. Filled s.queue bs q count) (sym e) f in
      elim (peek_by_score_correct fl
        (λ b. score_build_for_worker fl b.instructions worker_id s.scheduler) q f.valid) [
          | inl (none_left, run') ↦ absurd (Filled-some first rest q count f none_left)
          | inr (q', t, run', removed, best) ↦
              rw (run, run')
                (from_db empty q count held t q' removed
                  (Filled-free (first ∷ rest) q q' count t empty free f removed)
                  (claim-Ends up2 now worker_id t.build _ k))
        ]

  drained-Assigns :
      IsValid s.queue
      → HasKeys s.db.builds
      → length s.queue.heap ≡ 0
      → (r : Result Repo.Error (List Build)) → list_pending up s.db ≡ r
      → Assigns (elim r [
        | err e ↦ some (s, ok none)
        | ok builds ↦ elim builds [
          | [] ↦ some (s, ok none)
          | first ∷ rest ↦ refill fl up up2 now worker_id first rest s
        ]
      ])
  drained-Assigns v k empty (err e) run =
      nothing empty (λ h. absurd (true≢false (sym h ∙ list_pending-down up s.db e run)))
  drained-Assigns v k empty (ok []) run =
      nothing empty (λ _. none_pending s.db (list_pending-listed up s.db [] run))
  drained-Assigns v k empty (ok (first ∷ rest)) run =
      refill-Assigns v k empty first rest (list_pending-listed up s.db (first ∷ rest) run)

  -- On a valid queue and tables with distinct keys AssignBuild does not panic. It hands out nothing and
  -- changes nothing only if the queue is empty and no row is pending or the database does not answer.
  -- Otherwise it takes a build out of the queue. If that is empty, it first fills it with the listed pending
  -- rows, up to the first one that finds it full. The build is handed out exactly if the claim succeeds: its row was
  -- pending, is building under the worker afterwards, and no other row changes. If the claim fails the
  -- tables stay as they are, and the row was not pending or the database does not answer.
  pub assign_build_hands_out :
      IsValid s.queue → HasKeys s.db.builds → Assigns (assign_build fl up up2 now worker_id s)
  unfolding assign_build peek
  assign_build_hands_out v k =
      elim (peek_by_score_correct fl
        (λ b. score_build_for_worker fl b.instructions worker_id s.scheduler) s.queue v) [
          | inl (empty, run) ↦ rw run (drained-Assigns v k empty (list_pending up s.db) refl)
          | inr (q, t, run, removed, best) ↦
              rw run (from_queue t q removed (claim-Ends up2 now worker_id t.build _ k))
        ]
