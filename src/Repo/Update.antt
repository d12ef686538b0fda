-- ===== src/Repo/Update.antt =====
-- UpdateStatus, row by row.
use buildkit_multipartable.Base.{
  ℕ, ◌≡◌, refl, none, some, List, arith, Bytes, All, if◌then◌else◌, Bool-cases, Option-cases, inl,
  inr, ◌∙◌, eqb, eqb_refl, true, false,
}
use buildkit_multipartable.Domain.{Build, Status, is_terminal}
use buildkit_multipartable.Repo.{
  is_building, is_unset, is_open, is_claimable, has_id, finish_row, assign_row, log_row,
  updated_rows, find_row,
}
use buildkit_multipartable.Repo.Rows.{
  HasKeys, HasKeys-update_where, find_row-update_where, find_row-id, All-update_where,
}

module _ (now : ℕ) (id : Bytes) (status : Status) (worker_id log_line err_msg : Bytes) where
  -- What UpdateStatus makes of one row.
  unfoldable pub touch : Build → Build
  unfolding finish_row assign_row log_row
  touch r =
      if is_terminal status
      then (if is_open id r then finish_row now status worker_id log_line err_msg r else r)
      else if is_building status
      then (if is_claimable id r then assign_row now status worker_id log_line err_msg r else r)
      else if is_unset status
      then (if has_id id r then log_row now log_line r else r)
      else (if has_id id r then assign_row now status worker_id log_line err_msg r else r)

  finish-id : (r : Build) → (finish_row now status worker_id log_line err_msg r).id ≡ r.id
  unfolding finish_row
  finish-id r = refl

  assign-id : (r : Build) → (assign_row now status worker_id log_line err_msg r).id ≡ r.id
  unfolding assign_row
  assign-id r = refl

  log-id : (r : Build) → (log_row now log_line r).id ≡ r.id
  unfolding log_row
  log-id r = refl

  pub find_row-updated_rows :
      (i : Bytes) (rows : List Build)
      → find_row i (updated_rows now id status worker_id log_line err_msg rows)
        ≡ elim (find_row i rows) [ some r ↦ some (touch r) | none ↦ none ]
  unfolding updated_rows touch
  find_row-updated_rows i rows = ground (
    arith,
    find_row-update_where (is_open id) (finish_row now status worker_id log_line err_msg) finish-id
        i rows,
    find_row-update_where (is_claimable id) (assign_row now status worker_id log_line err_msg)
        assign-id i rows,
    find_row-update_where (has_id id) (log_row now log_line) log-id i rows,
    find_row-update_where (has_id id) (assign_row now status worker_id log_line err_msg) assign-id i
        rows,
  )

  pub updated_rows-HasKeys :
      (rows : List Build)
      → HasKeys rows
      → HasKeys (updated_rows now id status worker_id log_line err_msg rows)
  unfolding updated_rows
  updated_rows-HasKeys rows k = ground (
    arith,
    HasKeys-update_where (is_open id) (finish_row now status worker_id log_line err_msg) finish-id
        rows k,
    HasKeys-update_where (is_claimable id) (assign_row now status worker_id log_line err_msg)
        assign-id rows k,
    HasKeys-update_where (has_id id) (log_row now log_line) log-id rows k,
    HasKeys-update_where (has_id id) (assign_row now status worker_id log_line err_msg) assign-id
        rows k,
  )

  -- A predicate that holds of each row that UpdateStatus leaves, if `touch` keeps it.
  pub All-updated_rows {κ} :
      (P : Build → Type κ) (rows : List Build)
      → ((r : Build) → P r → P (touch r))
      → All P rows
      → All P (updated_rows now id status worker_id log_line err_msg rows)
  unfolding updated_rows touch
  All-updated_rows P rows h a =
      let finish = finish_row now status worker_id log_line err_msg in
      let assign = assign_row now status worker_id log_line err_msg in
      elim (Bool-cases (is_terminal status)) [
        | inl e ↦
            rw e (All-update_where P (is_open id) finish rows (λ r p t. rw (e, t) at (h r p)) a)
        | inr e ↦ rw e (elim (Bool-cases (is_building status)) [
          | inl f ↦ rw f (
              All-update_where P (is_claimable id) assign rows (λ r p t. rw (e, f, t) at (h r p)) a)
          | inr f ↦ rw f (elim (Bool-cases (is_unset status)) [
            | inl g ↦ rw g (
                All-update_where P (has_id id) (log_row now log_line) rows
                  (λ r p t. rw (e, f, g, t) at (h r p)) a)
            | inr g ↦
                rw g (
                  All-update_where P (has_id id) assign rows (λ r p t. rw (e, f, g, t) at (h r p))
                    a)
          ])
        ])
      ]

  -- The rows of the other builds stay as they are.
  pub other_rows :
      (i : Bytes) (rows : List Build)
      → eqb i id ≡ false
      → find_row i (updated_rows now id status worker_id log_line err_msg rows) ≡ find_row i rows
  other_rows i rows h = elim (Option-cases (find_row i rows)) [
    | inl e ↦ find_row-updated_rows i rows ∙ (rw e)
    | inr (x, e) ↦
        find_row-updated_rows i rows ∙ (rw e (unfold touch in ground (arith, find_row-id i rows e)))
  ]

  -- A terminal status goes to the row of the build, if that is not terminal yet.
  pub finished_row :
      (rows : List Build) (r : Build)
      → is_terminal status ≡ true
      → find_row id rows ≡ some r
      → find_row id (updated_rows now id status worker_id log_line err_msg rows)
        ≡ some
            (if is_terminal r.status then r else finish_row now status worker_id log_line err_msg r)
  finished_row rows r h e =
      find_row-updated_rows id rows
      ∙ (rw e (unfold touch in ground (arith, find_row-id id rows e, eqb_refl id)))
