-- ===== src/Queue/Slice.antt =====
-- Facts on the slice of the heap: a read that falls back on `d` out of range, and exchanges.
use mathlib.Core.List.{
  append-nil, perm_middle, mem-cons, mem-cons_self, mem-cons_of_mem, not-mem-nil,
}
use mathlib.Core.Logic.Or
use mathlib.Core.List.Perm
use buildkit_multipartable.Base.{
  ℕ, zero, suc, ◌<◌, ◌≡◌, refl, sym, subst, ap, All, Mem, List, [], ◌∷◌, ◌++◌, Perm, some, arith,
  ◌==◌, if◌then◌else◌, length, get_elem?, set, take, length-set,
}

module _ {ℓ} {A : Type ℓ} where
  pub snoc-perm : (xs : List A) (x : A) → Perm (xs ++ x ∷ []) (x ∷ xs)
  snoc-perm xs x = rw (append-nil xs) at (perm_middle {a = x} xs [])

module _ {ℓ} {A : Type ℓ} (d : A) where
  unfoldable pub entry : List A → ℕ → A
  entry [] i = d
  entry (x ∷ xs) zero = x
  entry (x ∷ xs) (suc i) = entry xs i

  pub get_elem?-entry : (xs : List A) (i : ℕ) → i < length xs → get_elem? xs i ≡ some (entry xs i)
  unfolding entry
  get_elem?-entry [] i h = absurd (omega arith)
  get_elem?-entry (x ∷ xs) zero h = refl
  get_elem?-entry (x ∷ xs) (suc i) h = get_elem?-entry xs i (omega arith)

  pub entry-set :
      (xs : List A) (i j : ℕ) (v : A)
      → i < length xs
      → entry (set xs i v) j ≡ (if i == j then v else entry xs j)
  unfolding entry
  entry-set [] i j v h = absurd (omega arith)
  entry-set (x ∷ xs) zero zero v h = refl
  entry-set (x ∷ xs) zero (suc j) v h = ground arith
  entry-set (x ∷ xs) (suc i) zero v h = ground arith
  entry-set (x ∷ xs) (suc i) (suc j) v h = ground (arith, entry-set xs i j v)

  pub entry-append : (xs ys : List A) (i : ℕ) → i < length xs → entry (xs ++ ys) i ≡ entry xs i
  unfolding entry
  entry-append [] ys i h = absurd (omega arith)
  entry-append (x ∷ xs) ys zero h = refl
  entry-append (x ∷ xs) ys (suc i) h = entry-append xs ys i (omega arith)

  pub entry-append_last : (xs : List A) (x : A) → entry (xs ++ x ∷ []) (length xs) ≡ x
  unfolding entry
  entry-append_last [] x = refl
  entry-append_last (y ∷ xs) x = entry-append_last xs x

  pub entry-take : (n : ℕ) (xs : List A) (i : ℕ) → i < n → entry (take n xs) i ≡ entry xs i
  unfolding entry
  entry-take zero xs i h = absurd (omega arith)
  entry-take (suc n) [] i h = refl
  entry-take (suc n) (x ∷ xs) zero h = refl
  entry-take (suc n) (x ∷ xs) (suc i) h = entry-take n xs i (omega arith)

  -- The last entry and the entries before it are the whole list.
  pub take-perm : (n : ℕ) (xs : List A) → length xs ≡ suc n → Perm (entry xs n ∷ take n xs) xs
  unfolding entry
  take-perm n [] h = absurd (omega arith)
  take-perm zero (x ∷ []) h = Perm.refl _
  take-perm zero (x ∷ y ∷ xs) h = absurd (omega arith)
  take-perm (suc n) (x ∷ xs) h =
      Perm.trans (Perm.swap x _ _) (Perm.cons x (take-perm n xs (omega arith)))

  pub length-take : (n : ℕ) (xs : List A) → length xs ≡ suc n → length (take n xs) ≡ n
  length-take n [] h = absurd (omega arith)
  length-take zero (x ∷ xs) h = refl
  length-take (suc n) (x ∷ xs) h = ap suc (length-take n xs (omega arith))

  -- Writing `v` over an entry and keeping the entry is adding `v`.
  set-perm : (xs : List A) (i : ℕ) (v : A) → i < length xs → Perm (entry xs i ∷ set xs i v) (v ∷ xs)
  unfolding entry
  set-perm [] i v h = absurd (omega arith)
  set-perm (x ∷ xs) zero v h = Perm.swap v x xs
  set-perm (x ∷ xs) (suc i) v h =
      Perm.trans (Perm.swap x (entry xs i) _)
        (Perm.trans (Perm.cons x (set-perm xs i v (omega arith))) (Perm.swap v x xs))

  unfoldable pub exchange : List A → ℕ → ℕ → List A
  exchange xs i j = set (set xs i (entry xs j)) j (entry xs i)

  pub length-exchange : (xs : List A) (i j : ℕ) → length (exchange xs i j) ≡ length xs
  unfolding exchange
  length-exchange xs i j = simp length-set

  pub entry-exchange :
      (xs : List A) (i j c : ℕ)
      → i < length xs
      → j < length xs
      → entry (exchange xs i j) c
        ≡ (if j == c then entry xs i else if i == c then entry xs j else entry xs c)
  unfolding exchange
  entry-exchange xs i j c hi hj =
      rw (entry-set (set xs i (entry xs j)) j c (entry xs i) (rw length-set hj))
        (rw (entry-set xs i c (entry xs j) hi))

  pub exchange-perm :
      (xs : List A) (i j : ℕ) → i < length xs → j < length xs → Perm (exchange xs i j) xs
  unfolding exchange
  exchange-perm xs i j hi hj =
      let ys = set xs i (entry xs j) in
      let same : entry ys j ≡ entry xs j = ground (arith, entry-set xs i j (entry xs j)) in
      let over = set-perm ys j (entry xs i) (rw length-set hj) in
      Perm.cons_inv (Perm.trans (rw same at over) (set-perm xs i (entry xs j) hi))

module _ {ℓ} {A : Type ℓ} (d : A) where
  pub mem-entry : (xs : List A) (i : ℕ) → i < length xs → Mem (entry d xs i) xs
  unfolding entry
  mem-entry [] i h = absurd (omega arith)
  mem-entry (x ∷ xs) zero h = mem-cons_self
  mem-entry (x ∷ xs) (suc i) h = mem-cons_of_mem x (mem-entry xs i (omega arith))

  -- What holds of the entry at each index holds of each member.
  pub of_entries {κ} :
      (P : A → Type κ) (xs : List A)
      → ((a : A) → IsProp (P a))
      → ((i : ℕ) → i < length xs → P (entry d xs i))
      → (a : A) → Mem a xs
      → P a
  unfolding entry
  of_entries P [] prop h a m = absurd (not-mem-nil m)
  of_entries P (x ∷ xs) prop h a m =
      Or.elim (prop a) (mem-cons.0 m) (λ e. subst P (sym e) (h 0 (omega arith)))
        (of_entries P xs prop (λ i p. h (suc i) (omega arith)) a)

pub All-mem {ℓ κ} :
    {A : Type ℓ} (P : A → Type κ) (xs : List A)
    → ((a : A) → IsProp (P a))
    → All P xs
    → (a : A) → Mem a xs
    → P a
All-mem P [] prop h a m = absurd (not-mem-nil m)
All-mem P (x ∷ xs) prop h a m =
    Or.elim (prop a) (mem-cons.0 m) (λ e. subst P (sym e) h.0) (All-mem P xs prop h.1 a)
