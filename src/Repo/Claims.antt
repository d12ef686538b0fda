-- ===== src/Repo/Claims.antt =====
-- UpdateStatus as the claim of a build by a worker.
use buildkit_multipartable.Base.{
  ℕ, ◌≡◌, refl, Bool, true, false, Option, none, some, List, [], ◌∷◌, arith, Bytes, All, eqb,
  eqb_iff, eqb_refl, Bool-cases, inl, inr, ◌⊎◌, Result, ok, err, ◌∙◌, length, select, ◌==◌,
  some_inj,
}
use buildkit_multipartable.Domain.{Build, building}
use buildkit_multipartable.Repo.{
  Db, Error, already_claimed, is_pending, is_claimable, assign_row, updated_rows, update_where,
  update_status, find_row,
}
use buildkit_multipartable.Repo.Rows.{HasKeys, Fresh, find_row-none, find_row-id}
use buildkit_multipartable.Repo.Update.{touch, find_row-updated_rows, other_rows}

-- The build has a row, and that row is pending.
abbrev pub is_free : Option Build → Bool
is_free none = false
is_free (some r) = is_pending r.status

-- Without a row that the WHERE clause picks, nothing changes and no row is counted.
unclaimable :
    (id : Bytes) (change : Build → Build) (rows : List Build)
    → All (λ r. is_claimable id r ≡ false) rows
    → (update_where (is_claimable id) change rows ≡ rows)
      × (length (select (is_claimable id) rows) ≡ 0)
unfolding update_where
unclaimable id change [] a = (refl, refl)
unclaimable id change (r ∷ rs) (h, a) =
    let (e, f) = unclaimable id change rs a in (rw (h, e), rw (h, length) f)

Fresh-unclaimable :
    (id : Bytes) (rows : List Build) → Fresh id rows → All (λ r. is_claimable id r ≡ false) rows
Fresh-unclaimable id [] f = tt
Fresh-unclaimable id (r ∷ rs) f = (rw (f.0), Fresh-unclaimable id rs f.1)

taken-unclaimable :
    (id : Bytes) (rows : List Build) (r : Build)
    → HasKeys rows
    → find_row id rows ≡ some r
    → is_pending r.status ≡ false
    → All (λ x. is_claimable id x ≡ false) rows
unfolding find_row
taken-unclaimable id [] r k e h = tt
taken-unclaimable id (x ∷ rs) r k e h = elim (Bool-cases (eqb x.id id)) [
  | inl same ↦
      let key : x.id ≡ id = (eqb_iff x.id id).0 same in
      (rw same (ground (arith, some_inj (rw same at e))), Fresh-unclaimable id rs (rw key at k.0))
  | inr other ↦ (rw other, taken-unclaimable id rs r k.1 (rw other at e) h)
]

pending-counted :
    (id : Bytes) (rows : List Build) (r : Build)
    → find_row id rows ≡ some r
    → is_pending r.status ≡ true
    → (length (select (is_claimable id) rows) == 0) ≡ false
unfolding find_row
pending-counted id [] r e h = cc
pending-counted id (x ∷ rs) r e h = ground (arith, pending-counted id rs r)

module _ (db : Db) (now : ℕ) (id worker_id log_line err_msg : Bytes) where
  refused :
      All (λ x. is_claimable id x ≡ false) db.builds
      → update_status true now id building worker_id log_line err_msg db ≡ (db, err already_claimed)
  unfolding update_status updated_rows
  refused a =
      let (e, f) =
        unclaimable id (assign_row now building worker_id log_line err_msg) db.builds a in
      rw (e, f)

  accepted :
      (r : Build)
      → find_row id db.builds ≡ some r
      → is_pending r.status ≡ true
      → update_status true now id building worker_id log_line err_msg db ≡ (
        record db { builds = updated_rows now id building worker_id log_line err_msg db.builds },
        ok tt,
      )
  unfolding update_status
  accepted r e h = rw (pending-counted id db.builds r e h)

  abbrev pub run : Db × Result Error (Unit {0})
  run = update_status true now id building worker_id log_line err_msg db

  -- How the claim ends, by the row that it finds.
  abbrev pub Claimed : Option Build → Type 0
  Claimed none = run ≡ (db, err already_claimed)
  Claimed (some r) =
      ((is_pending r.status ≡ false) × (run ≡ (db, err already_claimed)))
      ⊎ ((is_pending r.status ≡ true)
          × (run.1 ≡ ok tt)
          × (find_row id run.0.builds ≡ some (assign_row now building worker_id log_line err_msg r))
          × ((i : Bytes) → eqb i id ≡ false → find_row i run.0.builds ≡ find_row i db.builds))

  -- A claim on tables with distinct keys succeeds exactly if the build has a row that is pending. Then
  -- the row is building, under the worker, with the log line added, and every other row is as it was.
  -- If there is no row, or one that is not pending, the claim is refused and nothing changes.
  pub claim_correct : HasKeys db.builds → Claimed (find_row id db.builds)
  claim_correct k = by_row (find_row id db.builds) refl
    where
      by_row : (o : Option Build) → find_row id db.builds ≡ o → Claimed o
      by_row none e = refused (Fresh-unclaimable id db.builds (find_row-none id db.builds e))
      by_row (some r) e = elim (Bool-cases (is_pending r.status)) [
        | inl free ↦ inr (
          free,
          rw (accepted r e free),
          rw (accepted r e free) (
              find_row-updated_rows now id building worker_id log_line err_msg id db.builds
              ∙ (rw e (unfold touch in ground (arith, find_row-id id db.builds e, eqb_refl id)))),
          λ i h.
              rw (accepted r e free)
                (other_rows now id building worker_id log_line err_msg i db.builds h),
        )
        | inr taken ↦ inl (taken, refused (taken-unclaimable id db.builds r k e taken))
      ]
