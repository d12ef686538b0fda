-- ===== src/Paths/Parts.antt =====
-- Splitting a path at its slashes, and joining the parts.
use buildkit_multipartable.Base.{
  ℕ, ◌≡◌, refl, ◌∙◌, ap, true, false, List, [], ◌∷◌, ◌++◌, Bytes, eqb, arith, All, Bool-cases, inl,
  inr, ◌==◌,
}
use buildkit_multipartable.Strings.{has_prefix, split, join, cons_head}
use buildkit_multipartable.Paths.{slash, dot, dots}

abbrev pub NoSlash : Bytes → Type 0
NoSlash s = All (λ (c : ℕ). (c == b'/') ≡ false) s

-- an element that names a file or a folder below the one before it
abbrev pub IsName : Bytes → Type 0
IsName p = (eqb p [] ≡ false) × (eqb p dot ≡ false) × (eqb p dots ≡ false) × NoSlash p

cons_head-NoSlash :
    (c : ℕ) (ps : List Bytes) → (c == b'/') ≡ false → All NoSlash ps → All NoSlash (cons_head c ps)
cons_head-NoSlash c [] h a = ((h, tt), tt)
cons_head-NoSlash c (p ∷ ps) h (a, as') = ((h, a), as')

pub split-NoSlash : (s : Bytes) → All NoSlash (split s b'/')
unfolding split
split-NoSlash [] = (tt, tt)
split-NoSlash (c ∷ s) = elim (Bool-cases (c == b'/')) [
  | inl e ↦ rw e (tt, split-NoSlash s)
  | inr e ↦ rw e (cons_head-NoSlash c (split s b'/') e (split-NoSlash s))
]

cons_head-append :
    (c : ℕ) (s : Bytes) (ps : List Bytes)
    → cons_head c (split s b'/') ++ ps ≡ cons_head c (split s b'/' ++ ps)
unfolding split
cons_head-append c [] ps = refl
cons_head-append c (d ∷ s) ps = elim (Bool-cases (d == b'/')) [
  | inl e ↦ rw e refl
  | inr e ↦ rw e (sub (split s b'/'))
]
  where
    sub :
        (qs : List Bytes) → cons_head c (cons_head d qs) ++ ps ≡ cons_head c (cons_head d qs ++ ps)
    sub [] = refl
    sub (q ∷ qs) = refl

-- The parts of two paths with a slash between.
pub split-append : (s t : Bytes) → split (s ++ (b'/' ∷ t)) b'/' ≡ split s b'/' ++ split t b'/'
unfolding split
split-append [] t = refl
split-append (c ∷ s) t = elim (Bool-cases (c == b'/')) [
  | inl e ↦ rw e (ap (λ ps. [] ∷ ps) (split-append s t))
  | inr e ↦ rw (e, cons_head-append c s (split t b'/')) (ap (cons_head c) (split-append s t))
]

pub split_name : (p : Bytes) → NoSlash p → split p b'/' ≡ p ∷ []
unfolding split
split_name [] h = refl
split_name (c ∷ p) (h, k) = rw (h, split_name p k) refl

-- Joined parts are split where they were joined.
pub split-join :
    (p : Bytes) (ps : List Bytes) → All NoSlash (p ∷ ps) → split (join (p ∷ ps) slash) b'/' ≡ p ∷ ps
unfolding join
split-join p [] (h, _) = split_name p h
split-join p (q ∷ qs) (h, k) =
    split-append p (join (q ∷ qs) slash) ∙ rw (split_name p h, split-join q qs k) refl

-- A path with a prefix is the prefix and a rest.
pub has_prefix-append : (s p : Bytes) → has_prefix s p ≡ true → (r : Bytes) × (s ≡ p ++ r)
unfolding has_prefix
has_prefix-append s [] h = (s, refl)
has_prefix-append [] (c ∷ p) h = cc
has_prefix-append (d ∷ s) (c ∷ p) h =
    let tail = has_prefix-append s p (ground (arith, h)) in (tail.0, ground (arith, h, tail.1))

pub All-suffix {ℓ κ} : {A : Type ℓ} (P : A → Type κ) (xs ys : List A) → All P (xs ++ ys) → All P ys
All-suffix P [] ys a = a
All-suffix P (x ∷ xs) ys a = All-suffix P xs ys a.1
