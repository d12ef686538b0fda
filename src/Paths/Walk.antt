-- ===== src/Paths/Walk.antt =====
-- The elements that filepath.Clean keeps of a path.
use mathlib.Core.List.{append_assoc, append-nil}
use buildkit_multipartable.Base.{
  ◌≡◌, refl, ◌∙◌, Bool, true, List, [], ◌∷◌, ◌++◌, Bytes, eqb, arith, All, All-append, Bool-cases,
  inl, inr,
}
use buildkit_multipartable.Strings.{has_prefix, split}
use buildkit_multipartable.Paths.{slash, dot, dots, backtracks, drop_last, enter, walk, kept}
use buildkit_multipartable.Paths.Parts.{NoSlash, IsName, split-NoSlash}

pub drop_last-All {κ} : (P : Bytes → Type κ) (ps : List Bytes) → All P ps → All P (drop_last ps)
unfolding drop_last
drop_last-All P [] a = tt
drop_last-All P (p ∷ []) a = tt
drop_last-All P (p ∷ q ∷ ps) (h, a) = (h, drop_last-All P (q ∷ ps) a)

pub backtracks-names :
    (p : Bytes) (ps : List Bytes) → All IsName (p ∷ ps) → backtracks (p ∷ ps) ≡ true
unfolding backtracks
backtracks-names p [] (h, _) = ground (arith, h)
backtracks-names p (q ∷ ps) (_, a) = backtracks-names q ps a

-- The element ".." at the root of a rooted path is dropped, and takes back a name elsewhere.
enter-IsName :
    (out : List Bytes) (part : Bytes)
    → All IsName out
    → NoSlash part
    → All IsName (enter true out part)
unfolding enter
enter-IsName out part a k = elim (Bool-cases (eqb part [])) [
  | inl e ↦ rw e a
  | inr e ↦ elim (Bool-cases (eqb part dot)) [
    | inl d ↦ rw (e, d) a
    | inr d ↦ elim (Bool-cases (eqb part dots)) [
      | inr n ↦ rw (e, d, n) (All-append IsName out (part ∷ []) a ((e, d, n, k), tt))
      | inl u ↦ elim (Bool-cases (backtracks out)) [
        | inl b ↦ rw (e, d, u, b) (drop_last-All IsName out a)
        | inr b ↦ rw (e, d, u, b) a
      ]
    ]
  ]
]

pub walk-IsName :
    (out parts : List Bytes) → All IsName out → All NoSlash parts → All IsName (walk true out parts)
unfolding walk
walk-IsName out [] a k = a
walk-IsName out (part ∷ parts) a (h, k) =
    walk-IsName (enter true out part) parts (enter-IsName out part a h) k

-- Names are kept as they are.
pub walk_names :
    (rooted : Bool) (out parts : List Bytes)
    → All IsName parts
    → walk rooted out parts ≡ out ++ parts
unfolding walk enter
walk_names rooted out [] a = rw append-nil refl
walk_names rooted out (p ∷ parts) ((e, d, n, k), a) =
    rw (e, d, n) (walk_names rooted (out ++ p ∷ []) parts a ∙ rw append_assoc refl)

pub kept-IsName : (path : Bytes) → has_prefix path slash ≡ true → All IsName (kept path)
unfolding kept
kept-IsName path h = rw h (walk-IsName [] (split path b'/') tt (split-NoSlash path))
