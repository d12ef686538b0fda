-- ===== src/Repo/Taken.antt =====
-- Rows that no call makes pending.
use buildkit_multipartable.Base.{
  ℕ, ◌≡◌, refl, Bool, true, false, Option, none, some, arith, Bytes, Bool-cases, Option-cases, inl,
  inr, eqb, not,
}
use buildkit_multipartable.Domain.{Build, Status, is_terminal}
use buildkit_multipartable.Repo.{
  Db, is_pending, is_building, is_expired, find_row, create, update_status, gc, inserted_row,
}
use buildkit_multipartable.Repo.Rows.{HasKeys, find_row-append, find_row-select}
use buildkit_multipartable.Repo.Update.{touch, find_row-updated_rows}
use buildkit_multipartable.Repo.Steps.{is_report}
use buildkit_multipartable.Repo.Paths.{unset_of}
use buildkit_multipartable.Repo.Claims.{is_free}

-- No worker can claim the build.
abbrev pub IsTaken : Bytes → Db → Type 0
IsTaken id db = is_free (find_row id db.builds) ≡ false

touch-taken :
    (now : ℕ) (id : Bytes) (status : Status) (worker_id log_line err_msg : Bytes) (r : Build)
    → is_report status ≡ true
    → is_pending r.status ≡ false
    → is_pending (touch now id status worker_id log_line err_msg r).status ≡ false
unfolding touch
touch-taken now id status worker_id log_line err_msg r h free =
    elim (Bool-cases (is_terminal status)) [
      | inl e ↦ rw e (ground arith)
      | inr e ↦ elim (Bool-cases (is_building status)) [
        | inl f ↦ rw (e, f) (ground arith)
        | inr f ↦ rw (e, f, unset_of status e f h) (ground arith)
      ]
    ]

module _ (id : Bytes) (db : Db) (taken : IsTaken id db) where
  pub update_status-IsTaken :
      (up : Bool) (now : ℕ) (i : Bytes) (status : Status) (worker_id log_line err_msg : Bytes)
      → is_report status ≡ true
      → IsTaken id (update_status up now i status worker_id log_line err_msg db).0
  unfolding update_status
  update_status-IsTaken false now i status worker_id log_line err_msg h = taken
  update_status-IsTaken true now i status worker_id log_line err_msg h =
      let moved = find_row-updated_rows now i status worker_id log_line err_msg id db.builds in
      elim (Option-cases (find_row id db.builds)) [
        | inl e ↦ ground (arith, moved, e)
        | inr (r, e) ↦
            let still = touch-taken now i status worker_id log_line err_msg r h (rw e at taken) in
            ground (arith, moved, e, still)
      ]

  pub create-IsTaken :
      (up : Bool) (now : ℕ) (b : Build) → eqb b.id id ≡ false → IsTaken id (create up now b db).0
  unfolding create
  create-IsTaken false now b ne = taken
  create-IsTaken true now b ne = by_row (find_row b.id db.builds) refl
    where
      by_row :
          (o : Option Build) → find_row b.id db.builds ≡ o → IsTaken id (create true now b db).0
      by_row (some x) e = rw (e, create) taken
      by_row none e =
          rw (e, create)
            (unfold inserted_row in
              ground (arith, ne, taken, find_row-append id db.builds (inserted_row now b)))

  pub gc-IsTaken : (up : Bool) (before : ℕ) → HasKeys db.builds → IsTaken id (gc up before db).0
  unfolding gc
  gc-IsTaken false before k = taken
  gc-IsTaken true before k =
      let kept = find_row-select id (λ x. not (is_expired before x)) db.builds k in
      ground (arith, kept, taken)
