-- ===== src/Service/Submit.antt =====
-- SubmitBuild.
use buildkit_multipartable.Base.{
  ℕ, ◌≡◌, refl, Bool, true, false, inl, inr, List, [], ◌∷◌, ◌++◌, Option, some, none, Bytes,
  Bool-cases, Option-cases, arith, ok, err, Result, eqb_refl, ap, ◌∙◌,
}
use buildkit_multipartable.Domain.{Build, cancelled}
use buildkit_multipartable.Validate.{valid, single}
use buildkit_multipartable.Queue
use buildkit_multipartable.Queue.{Queue}
use buildkit_multipartable.Queue.Insert.{Pushed, push-Cases}
use buildkit_multipartable.Repo
use buildkit_multipartable.Repo.{
  Db, create, update_status, find_row, is_pending, unavailable, duplicate_key, inserted_row,
}
use buildkit_multipartable.Repo.Rows.{find_row-id, find_row-append}
use buildkit_multipartable.Repo.Update.{touch, find_row-updated_rows}
use buildkit_multipartable.Service.{
  State, Submission, Failure, invalid, queue_full, from_repo, new_build, submit_begin,
  submit_finish, submit_build, created,
}

-- A row that the database cancels is not pending afterwards.
pub cancelled_not_pending :
    (now : ℕ) (id msg : Bytes) (db : Db) (r : Build)
    → find_row id (update_status true now id cancelled [] [] msg db).0.builds ≡ some r
    → is_pending r.status ≡ false
unfolding update_status
cancelled_not_pending now id msg db r e = by_row (find_row id db.builds) refl
  where
    by_row : (o : Option Build) → find_row id db.builds ≡ o → is_pending r.status ≡ false
    by_row none f =
        ground (arith, e, f, find_row-updated_rows now id cancelled [] [] msg id db.builds)
    by_row (some x) f =
        unfold touch Repo.finish_row in
        ground (
          arith,
          e,
          f,
          find_row-updated_rows now id cancelled [] [] msg id db.builds,
          find_row-id id db.builds f,
          eqb_refl id,
        )

module _ (sha256 : Bytes → Bytes) (uuid : Bytes) (up up2 : Bool) (now : ℕ)
    (meanwhile : State → State) (sub : Submission) (s : State) where
  abbrev built : Build
  built = new_build sha256 uuid sub

  -- the build with the times that Create gives it
  abbrev pub submitted : Build
  submitted = record (new_build sha256 uuid sub) { created_at = now; updated_at = now }

  -- the state after Create
  abbrev pub stored : State
  stored = record s {
    db = record s.db { builds = s.db.builds ++ inserted_row now (new_build sha256 uuid sub) ∷ [] };
  }

  abbrev pub errors : List Bytes
  errors = single (record { dockerfile = sub.dockerfile; image_tag = sub.image_tag })

  -- The ways for SubmitBuild to end.
  pub data Submits : Option (State × Result Failure Build) → Type 0 where
    rejected : valid errors ≡ false → Submits (some (s, err (invalid errors)))
    full_before :
        valid errors ≡ true → Queue.full s.queue ≡ true → Submits (some (s, err queue_full))
    unanswered :
        valid errors ≡ true
        → Queue.full s.queue ≡ false
        → up ≡ false
        → Submits (some (s, err (from_repo Repo.unavailable)))
    duplicate :
        valid errors ≡ true
        → Queue.full s.queue ≡ false
        → (r : Build) → find_row submitted.id s.db.builds ≡ some r
        → Submits (some (s, err (from_repo Repo.duplicate_key)))
    full_after :
        Queue.full (meanwhile stored).queue ≡ true
        → (db' : Db)
        → (up2 ≡ true
            → (r : Build) → find_row submitted.id db'.builds ≡ some r
            → is_pending r.status ≡ false)
        → Submits (some (record (meanwhile stored) { db = db' }, err queue_full))
    accepted :
        valid errors ≡ true
        → Queue.full s.queue ≡ false
        → find_row submitted.id stored.db.builds
          ≡ some (inserted_row now (new_build sha256 uuid sub))
        → (q' : Queue) → Pushed (meanwhile stored).queue submitted q'
        → Submits (some (record (meanwhile stored) { queue = q' }, ok submitted))

  finish-Submits :
      valid errors ≡ true
      → Queue.full s.queue ≡ false
      → find_row submitted.id s.db.builds ≡ none
      → Queue.IsValid (meanwhile stored).queue
      → Submits (submit_finish up2 now submitted (meanwhile stored))
  unfolding submit_finish inserted_row
  finish-Submits ok_errors room fresh v = elim (push-Cases (meanwhile stored).queue submitted v) [
    | inl (no_room, run) ↦
        rw (run, submit_finish)
          (full_after no_room _ (λ answers r found.
            cancelled_not_pending now submitted.id _ (meanwhile stored).db r (rw answers at found)))
    | inr (_, q', run, p) ↦
        rw (run, submit_finish)
          (accepted ok_errors room
            (find_row-append submitted.id s.db.builds (inserted_row now built)
              ∙ (rw (fresh, eqb_refl submitted.id)))
            q' p)
  ]

  begin_rejected :
      valid errors ≡ false → submit_begin sha256 uuid up now sub s ≡ (s, err (invalid errors))
  unfolding submit_begin
  begin_rejected bad = rw (bad, submit_begin)

  begin_full :
      valid errors ≡ true
      → Queue.full s.queue ≡ true
      → submit_begin sha256 uuid up now sub s ≡ (s, err queue_full)
  unfolding submit_begin
  begin_full good no_room = rw (good, no_room, submit_begin)

  module _ (good : valid errors ≡ true) (room : Queue.full s.queue ≡ false) where
    begin_unanswered :
        up ≡ false → submit_begin sha256 uuid up now sub s ≡ (s, err (from_repo Repo.unavailable))
    unfolding submit_begin create
    begin_unanswered down =
        let c : create up now built s.db ≡ (s.db, submitted, err Repo.unavailable) =
          rw (down, create) in
        rw (good, room, submit_begin) (unfold created in ap (created s) c)

    begin_duplicate :
        up ≡ true
        → (r : Build) → find_row submitted.id s.db.builds ≡ some r
        → submit_begin sha256 uuid up now sub s ≡ (s, err (from_repo Repo.duplicate_key))
    unfolding submit_begin create
    begin_duplicate answers r e =
        let c : create up now built s.db ≡ (s.db, submitted, err Repo.duplicate_key) =
          rw (answers, e, create) in
        rw (good, room, submit_begin) (unfold created in ap (created s) c)

    begin_stored :
        up ≡ true
        → find_row submitted.id s.db.builds ≡ none
        → submit_begin sha256 uuid up now sub s ≡ (stored, ok submitted)
    unfolding submit_begin create
    begin_stored answers e =
        let c : create up now built s.db ≡ (stored.db, submitted, ok tt) =
          rw (answers, e, create) in
        rw (good, room, submit_begin) (unfold created in ap (created s) c)

  after : State × Result Failure Build → Option (State × Result Failure Build)
  after p = elim p.1 [ err e ↦ some (p.0, err e) | ok b ↦ submit_finish up2 now b (meanwhile p.0) ]

  after-submit_begin :
      submit_build sha256 uuid up up2 now meanwhile sub s
      ≡ after (submit_begin sha256 uuid up now sub s)
  unfolding submit_build after
  after-submit_begin = refl

  begin-Submits :
      Queue.IsValid (meanwhile stored).queue
      → Submits (after (submit_begin sha256 uuid up now sub s))
  unfolding after
  begin-Submits v = elim (Bool-cases (valid errors)) [
    | inr bad ↦ rw (begin_rejected bad) (rejected bad)
    | inl good ↦ elim (Bool-cases (Queue.full s.queue)) [
      | inl no_room ↦ rw (begin_full good no_room) (full_before good no_room)
      | inr room ↦ elim (Bool-cases up) [
        | inr down ↦ rw (begin_unanswered good room down) (unanswered good room down)
        | inl answers ↦ elim (Option-cases (find_row submitted.id s.db.builds)) [
          | inr (r, e) ↦ rw (begin_duplicate good room answers r e) (duplicate good room r e)
          | inl e ↦ rw (begin_stored good room answers e) (finish-Submits good room e v)
        ]
      ]
    ]
  ]

  -- SubmitBuild, whatever other calls do between its insert and its push as long as they leave the
  -- queue valid, does not panic and ends in one of six ways. A submission that the checks reject, a full
  -- queue, a database that does not answer or an id that is taken end it with an error and change
  -- nothing. If the queue is full by the time of the push, the error says so, and if the database answers
  -- then the build's row is not left pending. Otherwise the row is stored and the queue holds the build.
  pub submit_build_correct :
      Queue.IsValid (meanwhile stored).queue
      → Submits (submit_build sha256 uuid up up2 now meanwhile sub s)
  submit_build_correct v = rw after-submit_begin (begin-Submits v)
