-- ===== src/Base/Sort.antt =====
-- Sorting, for `ORDER BY` and Go's package sort: an insertion sort, of which clients use that the
-- result is an ordered permutation.
use mathlib.Core.Path.{◌≡◌, refl, ◌∙◌}
use mathlib.Core.Logic.{∥∥₁_elim}
use mathlib.Core.Bool.{Bool, true, false}
use mathlib.Core.List.{List, [], ◌∷◌, Perm, Permᴰ}
use mathlib.Core.List.Perm
use mathlib.Core.List.{is_set}
use native.Mathlib.Omega.{arith}
use buildkit_multipartable.Base.Lists.{All}
use buildkit_multipartable.Base.Tests.{if◌then◌else◌}

-- `le` is a total preorder.
pub record IsOrder {ℓ} {A : Type ℓ} (le : A → A → Bool) : Type ℓ where
  pub total : (a b : A) → le a b ≡ false → le b a ≡ true
  pub trans : (a b c : A) → le a b ≡ true → le b c ≡ true → le a c ≡ true

module _ {ℓ} {A : Type ℓ} (le : A → A → Bool) where
  unfoldable pub insert : A → List A → List A
  insert x [] = x ∷ []
  insert x (y ∷ ys) = if le x y then x ∷ y ∷ ys else y ∷ insert x ys

  unfoldable pub sort : List A → List A
  unfolding insert
  sort [] = []
  sort (x ∷ xs) = insert x (sort xs)

  -- Every entry of the list is at or after `x`.
  abbrev pub AllFrom : A → List A → Type 0
  AllFrom x [] = Unit {0}
  AllFrom x (y ∷ ys) = (le x y ≡ true) × AllFrom x ys

  abbrev pub IsSorted : List A → Type 0
  IsSorted [] = Unit {0}
  IsSorted (x ∷ xs) = AllFrom x xs × IsSorted xs

  insert-perm : (x : A) (ys : List A) → Perm (insert x ys) (x ∷ ys)
  unfolding insert
  insert-perm x [] = Perm.refl _
  insert-perm x (y ∷ ys) = ground (
    arith,
    Perm.refl (x ∷ y ∷ ys),
    Perm.trans (Perm.cons y (insert-perm x ys)) (Perm.swap x y ys),
  )

  pub sort-perm : (xs : List A) → Perm (sort xs) xs
  unfolding sort
  sort-perm [] = Perm.refl []
  sort-perm (x ∷ xs) = Perm.trans (insert-perm x (sort xs)) (Perm.cons x (sort-perm xs))

  module _ (order : IsOrder le) where
    AllFrom-trans : (x y : A) (ys : List A) → le x y ≡ true → AllFrom y ys → AllFrom x ys
    AllFrom-trans x y [] h f = tt
    AllFrom-trans x y (z ∷ ys) h f = (order.trans x y z h f.0, AllFrom-trans x y ys h f.1)

    AllFrom-insert :
        (z x : A) (ys : List A) → le z x ≡ true → AllFrom z ys → AllFrom z (insert x ys)
    unfolding insert
    AllFrom-insert z x [] h f = (h, tt)
    AllFrom-insert z x (y ∷ ys) h f = ground (arith, AllFrom-insert z x ys h f.1)

    insert-IsSorted : (x : A) (ys : List A) → IsSorted ys → IsSorted (insert x ys)
    unfolding insert
    insert-IsSorted x [] s = (tt, tt)
    insert-IsSorted x (y ∷ ys) s = ground (
      arith,
      order.total x y,
      insert-IsSorted x ys s.1,
      AllFrom-insert y x ys,
      AllFrom-trans x y ys,
    )

    pub sort-IsSorted : (xs : List A) → IsSorted (sort xs)
    unfolding sort
    sort-IsSorted [] = tt
    sort-IsSorted (x ∷ xs) = insert-IsSorted x (sort xs) (sort-IsSorted xs)

  -- In a total order, sorting depends only on the entries.
  module _ (order : IsOrder le) (antisym : (a b : A) → le a b ≡ true → le b a ≡ true → a ≡ b) where
    insert_comm : (x y : A) (zs : List A) → insert x (insert y zs) ≡ insert y (insert x zs)
    unfolding insert
    insert_comm x y [] = ground (arith, order.total x y, antisym x y)
    insert_comm x y (z ∷ zs) = ground (
      arith,
      insert_comm x y zs,
      order.total x y,
      order.total x z,
      order.total y z,
      order.trans x y z,
      order.trans y x z,
      antisym x y,
    )

    Permᴰ-sort : {xs ys : List A} → Permᴰ xs ys → sort xs ≡ sort ys
    unfolding sort
    Permᴰ-sort Permᴰ.nil = refl
    Permᴰ-sort (Permᴰ.cons e q) = let ih = Permᴰ-sort q in cc
    Permᴰ-sort (Permᴰ.swap {a} {b} {l = zs} e e') = let c = insert_comm a b (sort zs) in cc
    Permᴰ-sort (Permᴰ.trans q r) = Permᴰ-sort q ∙ Permᴰ-sort r

    pub perm-sort : IsSet A → {xs ys : List A} → Perm xs ys → sort xs ≡ sort ys
    perm-sort set q = ∥∥₁_elim q (is_set set _ _) Permᴰ-sort

  All-insert {κ} : (P : A → Type κ) (x : A) (ys : List A) → P x → All P ys → All P (insert x ys)
  unfolding insert
  All-insert P x [] p a = (p, tt)
  All-insert P x (y ∷ ys) p a =
      elim (le x y) as (λ b. All P (if b then x ∷ y ∷ ys else y ∷ insert x ys)) [
        | true ↦ (p, a)
        | false ↦ (a.0, All-insert P x ys p a.1)
      ]

  pub All-sort {κ} : (P : A → Type κ) (xs : List A) → All P xs → All P (sort xs)
  unfolding sort
  All-sort P [] a = tt
  All-sort P (x ∷ xs) a = All-insert P x (sort xs) a.0 (All-sort P xs a.1)
