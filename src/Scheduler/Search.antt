-- ===== src/Scheduler/Search.antt =====
-- sort.Search
use buildkit_multipartable.Base.{
  ℕ, zero, suc, ◌+◌, ◌/◌, ◌≤◌, ◌<◌, ◌≡◌, Bool, true, false, some, arith, Bool-cases, inl, inr, ltb,
}
use buildkit_multipartable.Scheduler.{search_loop}

-- `r` is where `f` turns from false to true in [i, j).
pub record IsSplit (f : ℕ → Bool) (i j r : ℕ) : Type 0 where
  pub above : i ≤ r
  pub within : r ≤ j
  pub before : (c : ℕ) → i ≤ c → c < r → f c ≡ false
  pub after : (c : ℕ) → r ≤ c → c < j → f c ≡ true

abbrev pub IsMonotone : (ℕ → Bool) → ℕ → Type 0
IsMonotone f n = (a b : ℕ) → a ≤ b → b < n → f a ≡ true → f b ≡ true

pub search_loop_splits :
    (k : ℕ) (f : ℕ → Bool) (i j : ℕ)
    → j < k + i
    → i ≤ j
    → IsMonotone f j
    → (r : ℕ) × (search_loop k f i j ≡ some r) × IsSplit f i j r
unfolding search_loop
search_loop_splits zero f i j fuel p mono = absurd (omega arith)
search_loop_splits (suc k) f i j fuel p mono =
    let h = (i + j) / 2 in
    elim (Bool-cases (ltb i j)) [
      | inr done ↦ (
        i,
        rw done,
        record {
          above = omega arith;
          within = p;
          before = λ c q r. absurd (omega arith);
          after = λ c q r. absurd (ground arith);
        },
      )
      | inl more ↦ rw more (elim (Bool-cases (f h)) [
        | inl hit ↦
            let (r, run, s) =
              search_loop_splits k f i h (ground arith) (ground arith)
                (λ a b q t. mono a b q (ground arith)) in
            (
              r,
              rw hit run,
              record {
                above = s.above;
                within = ground (arith, s.within);
                before = s.before;
                after = λ c q t. ground (arith, s.after c, mono h c);
              },
            )
        | inr miss ↦
            let (r, run, s) = search_loop_splits k f (h + 1) j (ground arith) (ground arith) mono in
            (
              r,
              rw miss run,
              record {
                above = ground (arith, s.above);
                within = s.within;
                before = λ c q t. ground (arith, s.before c, mono c h);
                after = s.after;
              },
            )
      ])
    ]
