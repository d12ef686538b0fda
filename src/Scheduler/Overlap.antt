-- ===== src/Scheduler/Overlap.antt =====
-- ScoreBuildForWorker: intersection and union of two lists.
use buildkit_multipartable.Base.{
  ◌+◌, ◌≤◌, ◌≡◌, refl, false, List, [], ◌∷◌, arith, Bytes, eqb, eqb_iff, if◌then◌else◌, length,
  select, length-select-le,
}
use buildkit_multipartable.Scheduler.{has, count_cached, count_new, overlap}
use buildkit_multipartable.Repo.Rows.{eqb_sym}

-- No entry occurs twice.
abbrev pub IsDistinct : List Bytes → Type 0
IsDistinct [] = Unit {0}
IsDistinct (x ∷ xs) = (has xs x ≡ false) × IsDistinct xs

count_cached-select :
    (instrs cks : List Bytes)
    → ((count_cached instrs cks).0 ≡ length (select (has instrs) cks))
      × ((count_cached instrs cks).1 ≡ length cks)
unfolding count_cached
count_cached-select instrs [] = (refl, refl)
count_cached-select instrs (ck ∷ cks) =
    let (e, f) = count_cached-select instrs cks in (ground (arith, e), ground (arith, f))

count_new-select :
    (cks xs : List Bytes) → count_new cks xs + length (select (has cks) xs) ≡ length xs
unfolding count_new
count_new-select cks [] = omega arith
count_new-select cks (x ∷ xs) = ground (arith, count_new-select cks xs)

count_eq : (x : Bytes) (ys : List Bytes) → has ys x ≡ false → length (select (λ y. eqb x y) ys) ≡ 0
count_eq x [] h = refl
count_eq x (y ∷ ys) h = ground (arith, eqb_sym x y, count_eq x ys)

count_eq-IsDistinct :
    (x : Bytes) (ys : List Bytes)
    → IsDistinct ys
    → length (select (λ y. eqb x y) ys) ≡ (if has ys x then 1 else 0)
count_eq-IsDistinct x [] d = refl
count_eq-IsDistinct x (y ∷ ys) d =
    ground (arith, eqb_sym x y, eqb_iff x y, count_eq-IsDistinct x ys d.1)

count-cons :
    (x : Bytes) (xs ys : List Bytes)
    → has xs x ≡ false
    → length (select (has (x ∷ xs)) ys)
      ≡ length (select (λ y. eqb x y) ys) + length (select (has xs) ys)
count-cons x xs [] h = omega arith
count-cons x xs (y ∷ ys) h = ground (arith, eqb_iff x y, count-cons x xs ys h)

count_none : (ys : List Bytes) → length (select (has []) ys) ≡ 0
count_none [] = refl
count_none (y ∷ ys) = count_none ys

-- The entries of one list that occur in the other are as many as the other way round.
count_comm :
    (xs ys : List Bytes)
    → IsDistinct xs
    → IsDistinct ys
    → length (select (has xs) ys) ≡ length (select (has ys) xs)
count_comm [] ys d e = count_none ys
count_comm (x ∷ xs) ys d e =
    ground (arith, count-cons x xs ys d.0, count_eq-IsDistinct x ys e, count_comm xs ys d.1 e)

-- The intersection is never larger than the union.
pub overlap_bounded : (instrs cks : List Bytes) → (overlap instrs cks).0 ≤ (overlap instrs cks).1
unfolding overlap
overlap_bounded instrs cks =
    let (common, total) = count_cached-select instrs cks in
    omega (arith, common, total, length-select-le (has instrs) cks)

-- For lists without duplicates the two counts are those of Jaccard similarity: each entry of the cache
-- keys that is an instruction is counted as common, common and total add up to the lengths of both
-- lists, and the counts do not depend on the order of the two lists.
pub overlap_jaccard :
    (instrs cks : List Bytes)
    → IsDistinct instrs
    → IsDistinct cks
    → ((overlap instrs cks).0 ≡ length (select (has instrs) cks))
      × ((overlap instrs cks).0 + (overlap instrs cks).1 ≡ length instrs + length cks)
      × (overlap instrs cks ≡ overlap cks instrs)
unfolding overlap
overlap_jaccard instrs cks d e =
    let (common, total) = count_cached-select instrs cks in
    let (common', total') = count_cached-select cks instrs in
    let same = count_comm instrs cks d e in
    let fresh = count_new-select cks instrs in
    let fresh' = count_new-select instrs cks in
    (
      common,
      omega (arith, common, total, same, fresh),
      ground (arith, common, total, common', total', same, fresh, fresh'),
    )
