-- ===== src/Api/Lists.antt =====
-- listBuilds.
use buildkit_multipartable.Base.{
  some, if◌then◌else◌, ◌^◌, ◌<◌, ℕ, zero, suc, ◌+◌, ◌-◌, ◌≤◌, ◌≡◌, refl, ◌∙◌, sym, ap, pos, negsuc,
  true, List, [], ◌∷◌, Bytes, length, take, drop, ltb, arith, Bool-cases, inl, inr, ℤ,
}
use buildkit_multipartable.Base.Sort.{sort}
use buildkit_multipartable.Domain.{Build}
use buildkit_multipartable.Repo
use buildkit_multipartable.Repo.{newest_first}
use buildkit_multipartable.Service.{State}
use buildkit_multipartable.Api.{
  fail, scan_int, reply, page_limit, page_offset, query_int, paginate, list_builds, int_sum,
}

module _ {A : Type 0} where
  take_all : (n : ℕ) (xs : List A) → length xs ≤ n → take n xs ≡ xs
  take_all zero [] h = refl
  take_all zero (x ∷ xs) h = absurd (omega (arith, h))
  take_all (suc n) [] h = refl
  take_all (suc n) (x ∷ xs) h = ap (◌∷◌ x) (take_all n xs (omega (arith, h)))

  drop_all : (n : ℕ) (xs : List A) → length xs ≤ n → drop n xs ≡ []
  drop_all zero [] h = refl
  drop_all zero (x ∷ xs) h = absurd (omega (arith, h))
  drop_all (suc n) [] h = refl
  drop_all (suc n) (x ∷ xs) h = drop_all n xs (omega (arith, h))

  length-drop : (n : ℕ) (xs : List A) → length (drop n xs) ≡ length xs - n
  length-drop zero xs = omega arith
  length-drop (suc n) [] = omega arith
  length-drop (suc n) (x ∷ xs) = omega (arith, length-drop n xs)

  length-take_le : (n : ℕ) (xs : List A) → length (take n xs) ≤ n
  length-take_le zero xs = omega arith
  length-take_le (suc n) [] = omega arith
  length-take_le (suc n) (x ∷ xs) = omega (arith, length-take_le n xs)

  take_nil : (n : ℕ) → take {A = A} n [] ≡ []
  take_nil zero = refl
  take_nil (suc n) = refl

  drop-take : (m n : ℕ) (xs : List A) → drop m (take (m + n) xs) ≡ take n (drop m xs)
  drop-take zero n xs = ap (λ k. take k xs) (omega arith)
  drop-take (suc m) n [] = ap (drop (suc m)) (take_nil (suc m + n)) ∙ sym (take_nil n)
  drop-take (suc m) n (x ∷ xs) =
      let step : suc m + n ≡ suc (m + n) = omega arith in
      ap (λ k. drop (suc m) (take k (x ∷ xs))) step ∙ drop-take m n xs

paginate-drop :
    (limit offset : ℕ) (ys : List Build)
    → length ys ≤ offset + limit
    → paginate limit offset ys ≡ drop offset ys
unfolding paginate
paginate-drop limit offset ys h = elim (Bool-cases (ltb offset (length ys))) [
  | inr past ↦ rw past (sym (drop_all offset ys (ground arith)))
  | inl within ↦
      rw within (take_all _ (drop offset ys) (let size = length-drop offset ys in ground arith))
]

page_limit-bounds : (v : Bytes) → (1 ≤ page_limit v) × (page_limit v ≤ 200)
unfolding page_limit
page_limit-bounds v = by_number (query_int v (pos 20)) refl
  where
    by_number : (z : ℤ) → query_int v (pos 20) ≡ z → (1 ≤ page_limit v) × (page_limit v ≤ 200)
    by_number (negsuc n) e = rw (e, page_limit) (omega arith, omega arith)
    by_number (pos n) e = rw (e, page_limit) (ground arith)

int_sum-small : (a b : ℕ) → a + b < 2 ^ 63 → int_sum a b ≡ pos (a + b)
unfolding int_sum
int_sum-small a b h = ground (arith, h)

int_sum-large :
    (a b : ℕ) → 2 ^ 63 ≤ a + b → a + b < 2 ^ 64 → int_sum a b ≡ negsuc (2 ^ 64 - 1 - (a + b))
unfolding int_sum
int_sum-large a b l h = ground (arith, l, h)

scan_int-bound : (s : Bytes) (n : ℕ) → scan_int s ≡ some (pos n) → n < 2 ^ 63
unfolding scan_int
scan_int-bound [] n h = absurd (ground (arith, h))
scan_int-bound (c ∷ s) n h = ground (arith, h, scan_int-bound s n)

query_int-bound : (v : Bytes) (n : ℕ) → query_int v (pos 0) ≡ pos n → n < 2 ^ 63
unfolding query_int
query_int-bound v n h = ground (arith, h, scan_int-bound v n)

page_offset-bound : (v : Bytes) → page_offset v < 2 ^ 63
unfolding page_offset
page_offset-bound v = by_number (query_int v (pos 0)) refl
  where
    by_number : (z : ℤ) → query_int v (pos 0) ≡ z → page_offset v < 2 ^ 63
    by_number (negsuc n) e = rw (e, page_offset) (omega arith)
    by_number (pos n) e = rw (e, page_offset) (query_int-bound v n e)

-- The list of builds has a limit from 1 to 200. If the database answers, and the sum of offset and limit
-- is an int of 64 bits, the page holds exactly the rows from the offset on, at most as many as the limit,
-- of all rows with the newest first, and the total is the number of all rows. If the sum overflows, the
-- answer is 500.
pub list_builds-page :
    (limit_arg offset_arg : Bytes) (s : State)
    → (1 ≤ page_limit limit_arg)
      × (page_limit limit_arg ≤ 200)
      × (list_builds true true limit_arg offset_arg s ≡ (
          if ltb (page_offset offset_arg + page_limit limit_arg) (2 ^ 63)
          then reply 200 (record {
            builds =
                take
                  (page_limit limit_arg)
                  (drop (page_offset offset_arg) (sort newest_first s.db.builds));
            total = length s.db.builds;
            limit = page_limit limit_arg;
            offset = page_offset offset_arg;
          })
          else fail 500))
unfolding list_builds Repo.list Repo.count_all
list_builds-page limit_arg offset_arg s =
    let limit = page_limit limit_arg in
    let offset = page_offset offset_arg in
    let rows = sort newest_first s.db.builds in
    let page =
      paginate-drop limit offset (take (offset + limit) rows) (length-take_le (offset + limit) rows)
      ∙ drop-take offset limit rows in
    let (low, high) = page_limit-bounds limit_arg in
    let bound = page_offset-bound offset_arg in
    (
      low,
      high,
      elim (Bool-cases (ltb (offset + limit) (2 ^ 63))) [
        | inl h ↦ rw (h, list_builds, int_sum-small offset limit (ground arith)) (rw page)
        | inr h ↦
            rw
              (
                h,
                list_builds,
                int_sum-large offset limit (ground arith) (omega (arith, bound, high)),
              )
              refl
      ],
    )
