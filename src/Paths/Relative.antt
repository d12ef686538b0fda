-- ===== src/Paths/Relative.antt =====
-- Relative paths: what filepath.Clean makes of them.
use mathlib.Core.List.{append-nil}
use buildkit_multipartable.Base.{
  ◌≡◌, refl, ◌∙◌, subst, sym, ◌⊎◌, true, false, List, [], ◌∷◌, ◌++◌, Bytes, eqb, eqb_iff, arith,
  All, All-append, Bool-cases, inl, inr,
}
use buildkit_multipartable.Strings.{has_prefix, split, join}
use buildkit_multipartable.Paths.{
  slash, dot, dots, backtracks, drop_last, enter, walk, kept, clean, or_dot,
}
use buildkit_multipartable.Paths.Parts.{NoSlash, IsName, split-NoSlash}
use buildkit_multipartable.Paths.Walk.{drop_last-All, backtracks-names}

-- any number of "..", then names
abbrev IsRelative : List Bytes → Type 0
IsRelative [] = Unit
IsRelative (p ∷ ps) = ((eqb p dots ≡ true) × IsRelative ps) ⊎ All IsName (p ∷ ps)

append-name :
    (out : List Bytes) (p : Bytes) → IsRelative out → IsName p → IsRelative (out ++ p ∷ [])
append-name [] p r n = inr (n, tt)
append-name (q ∷ out) p (inl (u, r)) n = inl (u, append-name out p r n)
append-name (q ∷ out) p (inr (m, a)) n = inr (m, All-append IsName out (p ∷ []) a (n, tt))

append-dots :
    (out : List Bytes) (p : Bytes)
    → IsRelative out
    → backtracks out ≡ false
    → eqb p dots ≡ true
    → IsRelative (out ++ p ∷ [])
unfolding backtracks
append-dots [] p r b u = inl (u, tt)
append-dots (q ∷ []) p (inl (v, r)) b u = inl (v, inl (u, tt))
append-dots (q ∷ s ∷ out) p (inl (v, r)) b u = inl (v, append-dots (s ∷ out) p r b u)
append-dots (q ∷ out) p (inr a) b u = let t = backtracks-names q out a in cc

drop_last-IsRelative : (out : List Bytes) → IsRelative out → IsRelative (drop_last out)
unfolding drop_last
drop_last-IsRelative [] r = tt
drop_last-IsRelative (q ∷ []) r = tt
drop_last-IsRelative (q ∷ s ∷ out) (inl (u, r)) = inl (u, drop_last-IsRelative (s ∷ out) r)
drop_last-IsRelative (q ∷ s ∷ out) (inr (n, a)) = inr (n, drop_last-All IsName (s ∷ out) a)

enter-IsRelative :
    (out : List Bytes) (part : Bytes)
    → IsRelative out
    → NoSlash part
    → IsRelative (enter false out part)
unfolding enter
enter-IsRelative out part r k = elim (Bool-cases (eqb part [])) [
  | inl e ↦ rw e r
  | inr e ↦ elim (Bool-cases (eqb part dot)) [
    | inl d ↦ rw (e, d) r
    | inr d ↦ elim (Bool-cases (eqb part dots)) [
      | inr n ↦ rw (e, d, n) (append-name out part r (e, d, n, k))
      | inl u ↦ elim (Bool-cases (backtracks out)) [
        | inl b ↦ rw (e, d, u, b) (drop_last-IsRelative out r)
        | inr b ↦ rw (e, d, u, b) (append-dots out part r b u)
      ]
    ]
  ]
]

walk-IsRelative :
    (out parts : List Bytes)
    → IsRelative out
    → All NoSlash parts
    → IsRelative (walk false out parts)
unfolding walk
walk-IsRelative out [] r k = r
walk-IsRelative out (part ∷ parts) r (h, k) =
    walk-IsRelative (enter false out part) parts (enter-IsRelative out part r h) k

kept-IsRelative : (path : Bytes) → has_prefix path slash ≡ false → IsRelative (kept path)
unfolding kept
kept-IsRelative path h = rw h (walk-IsRelative [] (split path b'/') tt (split-NoSlash path))

pub has_prefix_self : (p s : Bytes) → has_prefix (p ++ s) p ≡ true
unfolding has_prefix
has_prefix_self [] s = refl
has_prefix_self (c ∷ p) s = ground (arith, has_prefix_self p s)

join_prefix : (p : Bytes) (ps : List Bytes) → has_prefix (join (p ∷ ps) slash) p ≡ true
unfolding join
join_prefix p [] = subst (λ s. has_prefix s p ≡ true) (append-nil p) (has_prefix_self p [])
join_prefix p (q ∷ qs) = has_prefix_self p _

-- One or more names with slashes between.
abbrev pub IsKey : Bytes → Type 0
IsKey path = (p : Bytes) × (ps : List Bytes) × All IsName (p ∷ ps) × (path ≡ join (p ∷ ps) slash)

-- Such a path, or the folder itself.
abbrev pub IsPlain : Bytes → Type 0
IsPlain path = (path ≡ dot) ⊎ IsKey path

pub join_nonempty :
    (p : Bytes) (ps : List Bytes) → eqb p [] ≡ false → eqb (join (p ∷ ps) slash) [] ≡ false
unfolding join eqb
join_nonempty [] ps h = cc
join_nonempty (c ∷ p) [] h = refl
join_nonempty (c ∷ p) (q ∷ qs) h = refl

pub kept_nonempty :
    (path k : Bytes) (ks : List Bytes)
    → has_prefix path slash ≡ false
    → kept path ≡ k ∷ ks
    → eqb (join (k ∷ ks) slash) [] ≡ false
unfolding eqb
kept_nonempty path k ks h e = go (subst IsRelative e (kept-IsRelative path h))
  where
    go : IsRelative (k ∷ ks) → eqb (join (k ∷ ks) slash) [] ≡ false
    go (inl (u, r)) = join_nonempty k ks (rw ((eqb_iff k dots).0 u) refl)
    go (inr a) = join_nonempty k ks a.0.0

parts-IsPlain :
    (path : Bytes) (ks : List Bytes)
    → IsRelative ks
    → or_dot (join ks slash) ≡ path
    → has_prefix path dots ≡ false
    → IsPlain path
unfolding eqb join
parts-IsPlain path [] r c n = inl (sym c)
parts-IsPlain path (p ∷ ps) (inl (u, r)) c n =
    let e : p ≡ dots = (eqb_iff p dots).0 u in
    let f : eqb (join (p ∷ ps) slash) [] ≡ false = join_nonempty p ps (rw e refl) in
    let t : has_prefix (join (p ∷ ps) slash) dots ≡ true =
      subst (λ q. has_prefix (join (p ∷ ps) slash) q ≡ true) e (join_prefix p ps) in
    let o : or_dot (join (p ∷ ps) slash) ≡ join (p ∷ ps) slash = rw f refl in cc
parts-IsPlain path (p ∷ ps) (inr a) c n = inr (p, ps, a, sym c ∙ rw (join_nonempty p ps a.0.0) refl)

-- A relative path that Clean leaves alone, and that does not begin with "..", is plain.
pub clean_relative :
    (path : Bytes)
    → has_prefix path slash ≡ false
    → clean path ≡ path
    → has_prefix path dots ≡ false
    → IsPlain path
unfolding clean
clean_relative path h c n =
    let e : or_dot (join (kept path) slash) ≡ clean path = rw h refl in
    parts-IsPlain path (kept path) (kept-IsRelative path h) (e ∙ c) n
