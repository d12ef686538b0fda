-- ===== src/Repo/Paths.antt =====
-- How one call moves the row of a build.
use buildkit_multipartable.Base.{
  ℕ, ◌≡◌, refl, ◌∙◌, Bool, true, false, Option, none, some, List, [], arith, Bytes, Bool-cases, inl,
  inr, ◌⊎◌, if◌then◌else◌, not,
}
use buildkit_multipartable.Domain.{Build, Worker, Rate, Status, pending, building, is_terminal}
use buildkit_multipartable.Repo.{
  Db, is_pending, is_building, is_unset, is_open, is_claimable, update_where, is_overdue,
  is_stranded, is_expired, has_id, time_out_row, requeue_row, rate_row, inserted_row, find_row,
  create, update_status, reassign_stale, gc, set_cache_rate, upsert, mark_offline,
}
use buildkit_multipartable.Repo.Rows.{
  HasKeys, find_row-append, find_row-select, find_row-update_where,
}
use buildkit_multipartable.Repo.Update.{touch, find_row-updated_rows}
use buildkit_multipartable.Repo.Steps.{
  Step, creates, updates, reassigns, expires, rates, heartbeats, prunes, is_report, Reported,
}
use buildkit_multipartable.Repo.Shape.{IsWellFormed, time_out_row-id, requeue_row-id, rate_row-id}

-- The legal moves of a row.
pub data Move (r r' : Build) : Type 0 where
  stay :
      r'.status ≡ r.status
      → r'.worker_id ≡ r.worker_id
      → r'.error ≡ r.error
      → r'.completed_at ≡ r.completed_at
      → Move r r'
  claim : r.status ≡ pending → r'.status ≡ building → Move r r'
  finish : is_terminal r.status ≡ false → is_terminal r'.status ≡ true → Move r r'
  requeue : r.status ≡ building → r'.status ≡ pending → r'.worker_id ≡ [] → Move r r'

pub Move-refl : (r : Build) → Move r r
Move-refl r = stay refl refl refl refl

pending_of : (s : Status) → is_pending s ≡ true → s ≡ pending
pending_of s h = ground arith

building_of : (s : Status) → is_building s ≡ true → s ≡ building
building_of s h = ground arith

pub unset_of :
    (s : Status)
    → is_terminal s ≡ false
    → is_building s ≡ false
    → is_report s ≡ true
    → is_unset s ≡ true
unset_of s e f h = ground arith

touch-Move :
    (now : ℕ) (id : Bytes) (status : Status) (worker_id log_line err_msg : Bytes) (r : Build)
    → is_report status ≡ true
    → Move r (touch now id status worker_id log_line err_msg r)
unfolding touch
touch-Move now id status worker_id log_line err_msg r h = elim (Bool-cases (is_terminal status)) [
  | inl e ↦ rw e (elim (Bool-cases (is_open id r)) [
    | inl o ↦ rw o (finish (ground arith) e)
    | inr o ↦ rw o (Move-refl r)
  ])
  | inr e ↦ rw e (elim (Bool-cases (is_building status)) [
    | inl f ↦ rw f (elim (Bool-cases (is_claimable id r)) [
      | inl o ↦ rw o (claim (ground arith) (building_of status f))
      | inr o ↦ rw o (Move-refl r)
    ])
    | inr f ↦
        rw (f, unset_of status e f h)
          (elim (Bool-cases (has_id id r)) [
            | inl o ↦ rw o (stay refl refl refl refl)
            | inr o ↦ rw o (Move-refl r)
          ])
  ])
]

-- Both statements of ReassignStale on one row.
stale-Move :
    (now t : ℕ) (workers : List Worker) (r : Build)
    → let r1 = if is_overdue now r then time_out_row now r else r in
      Move r (if is_stranded now t workers r1 then requeue_row now r1 else r1)
unfolding time_out_row requeue_row
stale-Move now t workers r = elim (Bool-cases (is_overdue now r)) [
  | inl e ↦ rw e (finish (ground arith) refl)
  | inr e ↦ rw e (elim (Bool-cases (is_stranded now t workers r)) [
    | inl f ↦ rw f (requeue (ground arith) refl refl)
    | inr f ↦ rw f (Move-refl r)
  ])
]

-- What becomes of the row `r` of the build `id`.
abbrev pub Follows : Bytes → Build → Db → Type 0
Follows id r e =
    ((is_terminal r.status ≡ true) × (find_row id e.builds ≡ none))
    ⊎ ((r' : Build) × (find_row id e.builds ≡ some r') × Move r r')

module _ (db : Db) (id : Bytes) (r : Build) (found : find_row id db.builds ≡ some r) where
  unmoved : Follows id r db
  unmoved = inr (r, found, Move-refl r)

  create-Follows : (up : Bool) (now : ℕ) (b : Build) → Follows id r (create up now b db).0
  unfolding create
  create-Follows false now b = unmoved
  create-Follows true now b = by_row (find_row b.id db.builds) refl
    where
      by_row :
          (o : Option Build) → find_row b.id db.builds ≡ o → Follows id r (create true now b db).0
      by_row (some x) e = rw (e, create) unmoved
      by_row none e =
          rw (e, create)
            (inr (r, find_row-append id db.builds (inserted_row now b) ∙ (rw found), Move-refl r))

  update_status-Follows :
      (up : Bool) (now : ℕ) (i : Bytes) (status : Status) (worker_id log_line err_msg : Bytes)
      → is_report status ≡ true
      → Follows id r (update_status up now i status worker_id log_line err_msg db).0
  unfolding update_status
  update_status-Follows false now i status worker_id log_line err_msg h = unmoved
  update_status-Follows true now i status worker_id log_line err_msg h =
      let moved = find_row-updated_rows now i status worker_id log_line err_msg id db.builds in
      inr (
        touch now i status worker_id log_line err_msg r,
        ground (arith, moved, found),
        touch-Move now i status worker_id log_line err_msg r h,
      )

  time_outs :
      (now : ℕ)
      → find_row id (update_where (is_overdue now) (time_out_row now) db.builds)
        ≡ some (if is_overdue now r then time_out_row now r else r)
  time_outs now =
      find_row-update_where (is_overdue now) (time_out_row now) (time_out_row-id now) id db.builds
      ∙ (rw found)

  reassign_stale-Follows :
      (up up2 : Bool) (now t b : ℕ) → Follows id r (reassign_stale up up2 now t b db).0
  unfolding reassign_stale
  reassign_stale-Follows false up2 now t b = unmoved
  reassign_stale-Follows true false now t b = inr (_, time_outs now, time_out-Move)
    where
      time_out-Move : Move r (if is_overdue now r then time_out_row now r else r)
      time_out-Move = elim (Bool-cases (is_overdue now r)) [
        | inl e ↦ rw e (finish (ground arith) (unfold time_out_row in refl))
        | inr e ↦ rw e (Move-refl r)
      ]
  reassign_stale-Follows true true now t b =
      let rows = update_where (is_overdue now) (time_out_row now) db.builds in
      inr (
        _,
        find_row-update_where (is_stranded now t db.workers) (requeue_row now) (requeue_row-id now)
              id rows
            ∙ (rw (time_outs now)),
        stale-Move now t db.workers r,
      )

  gc-Follows : (up : Bool) (before : ℕ) → HasKeys db.builds → Follows id r (gc up before db).0
  unfolding gc
  gc-Follows false before k = unmoved
  gc-Follows true before k =
      let kept = find_row-select id (λ x. not (is_expired before x)) db.builds k in
      elim (Bool-cases (is_expired before r)) [
        | inl e ↦ inl (ground (arith, e), kept ∙ (rw (found, e)))
        | inr e ↦ inr (r, kept ∙ (rw (found, e)), Move-refl r)
      ]

  set_cache_rate-Follows :
      (up : Bool) (i : Bytes) (rate : Rate) → Follows id r (set_cache_rate up i rate db).0
  unfolding set_cache_rate
  set_cache_rate-Follows false i rate = unmoved
  set_cache_rate-Follows true i rate =
      let moved =
        find_row-update_where (has_id i) (rate_row rate) (rate_row-id rate) id db.builds in
      elim (Bool-cases (has_id i r)) [
        | inl e ↦
            inr (
              rate_row rate r,
              moved ∙ (rw (found, e)),
              unfold rate_row in stay refl refl refl refl,
            )
        | inr e ↦ inr (r, moved ∙ (rw (found, e)), Move-refl r)
      ]

-- One call of the services, whether or not the database answers, moves the row of a build along a legal
-- edge, if the status of an UpdateStatus is terminal, building or none, whatever its other arguments: it stays, or goes from pending to building, from a status that is
-- not terminal to one that is, or from building back to pending without a worker. So a terminal row
-- keeps its status, worker, error and completion time, and only such a row is ever deleted.
pub Step-Follows :
    {db e : Db} (id : Bytes) (r : Build)
    → IsWellFormed db
    → find_row id db.builds ≡ some r
    → (step : Step db e) → Reported step
    → Follows id r e
unfolding upsert mark_offline
Step-Follows {db} id r v f (creates up now b s w) h = create-Follows db id r f up now b
Step-Follows {db} id r v f (updates up now i status worker_id log_line err_msg) h =
    update_status-Follows db id r f up now i status worker_id log_line err_msg h
Step-Follows {db} id r v f (reassigns up up2 now t b) h =
    reassign_stale-Follows db id r f up up2 now t b
Step-Follows {db} id r v f (expires up before) h = gc-Follows db id r f up before v.keys
Step-Follows {db} id r v f (rates up i rate) h = set_cache_rate-Follows db id r f up i rate
Step-Follows {db} id r v f (heartbeats true now w) h = unmoved db id r f
Step-Follows {db} id r v f (heartbeats false now w) h = unmoved db id r f
Step-Follows {db} id r v f (prunes true now t) h = unmoved db id r f
Step-Follows {db} id r v f (prunes false now t) h = unmoved db id r f
