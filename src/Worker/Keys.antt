-- ===== src/Worker/Keys.antt =====
-- addCacheKeys.
use buildkit_multipartable.Base.{
  ℕ, zero, suc, ◌+◌, ◌-◌, ◌≤◌, ◌≡◌, refl, sym, subst, true, false, List, [], ◌∷◌, ◌++◌, Bytes, eqb,
  eqb_refl, length, drop, length-append, ltb, arith, All, Bool-cases, inl, inr, if◌then◌else◌,
}
use buildkit_multipartable.Repo.Rows.{eqb_sym}
use buildkit_multipartable.Scheduler.{has}
use buildkit_multipartable.Scheduler.Overlap.{IsDistinct}
use buildkit_multipartable.Worker.{add_new, trim, add_cache_keys}

has-append :
    (xs : List Bytes) (x y : Bytes) → has (xs ++ x ∷ []) y ≡ (if has xs y then true else eqb x y)
has-append [] x y = ground arith
has-append (z ∷ xs) x y = ground (arith, has-append xs x y)

append-IsDistinct :
    (xs : List Bytes) (x : Bytes) → IsDistinct xs → has xs x ≡ false → IsDistinct (xs ++ x ∷ [])
append-IsDistinct [] x d h = (refl, tt)
append-IsDistinct (z ∷ xs) x (fresh, d) h = (
  ground (arith, has-append xs x z, eqb_sym x z, fresh, h),
  append-IsDistinct xs x d (ground (arith, h)),
)

add_new-IsDistinct : (keys xs : List Bytes) → IsDistinct keys → IsDistinct (add_new keys xs)
unfolding add_new
add_new-IsDistinct keys [] d = d
add_new-IsDistinct keys (x ∷ xs) d = elim (Bool-cases (has keys x)) [
  | inl seen ↦ rw seen (add_new-IsDistinct keys xs d)
  | inr fresh ↦ rw fresh (add_new-IsDistinct (keys ++ x ∷ []) xs (append-IsDistinct keys x d fresh))
]

drop-IsDistinct : (n : ℕ) (xs : List Bytes) → IsDistinct xs → IsDistinct (drop n xs)
drop-IsDistinct zero xs d = d
drop-IsDistinct (suc n) [] d = tt
drop-IsDistinct (suc n) (x ∷ xs) d = drop-IsDistinct n xs d.1

length-drop : (n : ℕ) (xs : List Bytes) → length (drop n xs) ≡ length xs - n
length-drop zero xs = omega arith
length-drop (suc n) [] = omega arith
length-drop (suc n) (x ∷ xs) = omega (arith, length-drop n xs)

-- A worker's cache keys stay free of duplicates and at most 512.
add_cache_keys-IsDistinct :
    (keys instructions : List Bytes)
    → IsDistinct keys
    → IsDistinct (add_cache_keys keys instructions)
      × (length (add_cache_keys keys instructions) ≤ 512)
unfolding add_cache_keys trim
add_cache_keys-IsDistinct keys instructions d =
    let all = add_new keys instructions in
    let distinct = add_new-IsDistinct keys instructions d in
    elim (Bool-cases (ltb 512 (length all))) [
      | inl long ↦ rw long (
        drop-IsDistinct (length all - 512) all distinct,
        omega (arith, length-drop (length all - 512) all),
      )
      | inr short ↦ rw short (distinct, ground arith)
    ]

has-add_new :
    (keys xs : List Bytes) (y : Bytes) → has keys y ≡ true → has (add_new keys xs) y ≡ true
unfolding add_new
has-add_new keys [] y h = h
has-add_new keys (x ∷ xs) y h = elim (Bool-cases (has keys x)) [
  | inl seen ↦ rw seen (has-add_new keys xs y h)
  | inr fresh ↦ rw fresh (has-add_new (keys ++ x ∷ []) xs y (rw (has-append keys x y, h)))
]

length-add_new : (keys xs : List Bytes) → length (add_new keys xs) ≤ length keys + length xs
unfolding add_new
length-add_new keys [] = omega arith
length-add_new keys (x ∷ xs) = elim (Bool-cases (has keys x)) [
  | inl seen ↦ rw seen (omega (arith, length-add_new keys xs))
  | inr fresh ↦
      rw fresh (omega (arith, length-add_new (keys ++ x ∷ []) xs, length-append keys (x ∷ [])))
]

each_added : (keys xs : List Bytes) → All (λ x. has (add_new keys xs) x ≡ true) xs
unfolding add_new
each_added keys [] = tt
each_added keys (x ∷ xs) = elim (Bool-cases (has keys x)) [
  | inl seen ↦
      let e : add_new keys (x ∷ xs) ≡ add_new keys xs = rw (seen, add_new) in
      subst (λ zs. All (λ y. has zs y ≡ true) (x ∷ xs)) (sym e)
        (has-add_new keys xs x seen, each_added keys xs)
  | inr fresh ↦
      let e : add_new keys (x ∷ xs) ≡ add_new (keys ++ x ∷ []) xs = rw (fresh, add_new) in
      subst (λ zs. All (λ y. has zs y ≡ true) (x ∷ xs)) (sym e)
        (
          has-add_new (keys ++ x ∷ []) xs x (rw (has-append keys x x, fresh, eqb_refl x)),
          each_added (keys ++ x ∷ []) xs,
        )
]

-- As long as there is room for them, the instructions of a finished build are all among the keys.
add_cache_keys-All :
    (keys instructions : List Bytes)
    → length keys + length instructions ≤ 512
    → All (λ x. has (add_cache_keys keys instructions) x ≡ true) instructions
unfolding add_cache_keys trim
add_cache_keys-All keys instructions h =
    let short : ltb 512 (length (add_new keys instructions)) ≡ false =
      let few = length-add_new keys instructions in ground arith in
    rw short (each_added keys instructions)
