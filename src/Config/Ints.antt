-- ===== src/Config/Ints.antt =====
-- ParseInt on the digits that fmt prints.
use buildkit_multipartable.Base.{
  ℕ, zero, suc, ◌+◌, ◌*◌, ◌/◌, ◌%◌, ◌^◌, ◌<◌, ◌≡◌, refl, ◌∙◌, pos, true, false, [], ◌∷◌, some,
  Bytes, eqb, arith, Bool-cases, inl, inr, ltb, ap, ◌==◌,
}
use buildkit_multipartable.Strings.{decimal, decimal_loop}
use buildkit_multipartable.Config.{digits, magnitude, parse_int, is_digit}

digit-is_digit : (n : ℕ) → is_digit (b'0' + n % 10) ≡ true
digit-is_digit n = grind arith

digits-digit :
    (acc n : ℕ) (s : Bytes) → digits acc ((b'0' + n % 10) ∷ s) ≡ digits (acc * 10 + n % 10) s
unfolding digits
digits-digit acc n s = ground (arith, digit-is_digit n)

digits-decimal_loop : (k n : ℕ) (s : Bytes) → n < k → digits 0 (decimal_loop k n s) ≡ digits n s
unfolding decimal_loop
digits-decimal_loop zero n s h = absurd (omega arith)
digits-decimal_loop (suc k) n s h = elim (Bool-cases (ltb n 10)) [
  | inl small ↦ rw small (digits-digit 0 n s ∙ ap (λ m. digits m s) (grind arith))
  | inr large ↦ rw large (
      digits-decimal_loop k (n / 10) ((b'0' + n % 10) ∷ s) (grind arith)
      ∙ (digits-digit (n / 10) n s ∙ ap (λ m. digits m s) (omega arith)))
]

decimal_loop-head :
    (k n : ℕ) (s : Bytes)
    → n < k
    → (c : ℕ) × (rest : Bytes) × (decimal_loop k n s ≡ c ∷ rest) × (is_digit c ≡ true)
unfolding decimal_loop
decimal_loop-head zero n s h = absurd (omega arith)
decimal_loop-head (suc k) n s h = elim (Bool-cases (ltb n 10)) [
  | inl small ↦ rw small (b'0' + n % 10, s, refl, digit-is_digit n)
  | inr large ↦ rw large (decimal_loop-head k (n / 10) ((b'0' + n % 10) ∷ s) (grind arith))
]

parse_int-digits :
    (s : Bytes) (c : ℕ) (rest : Bytes) (n : ℕ)
    → s ≡ c ∷ rest
    → is_digit c ≡ true
    → digits 0 s ≡ some n
    → n < 2 ^ 63
    → parse_int s ≡ some (pos n)
unfolding parse_int magnitude
parse_int-digits s c rest n e d run h =
    let below : ltb n (2 ^ 63) ≡ true = ground arith in
    let unsigned : (c == b'-') ≡ false = ground arith in
    let unsigned' : (c == b'+') ≡ false = ground arith in
    rw e (rw (unsigned, unsigned', rw e at run, below))

pub parse_int-decimal : (n : ℕ) → n < 2 ^ 63 → parse_int (decimal n) ≡ some (pos n)
unfolding decimal digits
parse_int-decimal n h =
    let (c, rest, e, d) = decimal_loop-head (n + 1) n [] (omega arith) in
    parse_int-digits _ c rest n e d (digits-decimal_loop (n + 1) n [] (omega arith)) h

pub decimal-set : (n : ℕ) → eqb (decimal n) [] ≡ false
unfolding decimal eqb
decimal-set n = let (c, rest, e, d) = decimal_loop-head (n + 1) n [] (omega arith) in rw e
