-- ===== src/Paths/Under.antt =====
-- Paths with names added below a folder.
use mathlib.Core.List.{append_assoc}
use buildkit_multipartable.Base.{
  ◌≡◌, refl, sym, Bool, false, List, [], ◌∷◌, ◌++◌, Bytes, eqb, All, Bool-cases, inl, inr,
}
use buildkit_multipartable.Strings.{has_prefix, split, join}
use buildkit_multipartable.Paths.{slash, dot, kept, walk, enter, clean}
use buildkit_multipartable.Paths.Parts.{IsName, split-append, split-join}
use buildkit_multipartable.Paths.Walk.{walk_names}
use buildkit_multipartable.Paths.Rooted.{names-NoSlash}
use buildkit_multipartable.Paths.Relative.{join_nonempty, kept_nonempty}

pub walk-append :
    (rooted : Bool) (out xs ys : List Bytes)
    → walk rooted out (xs ++ ys) ≡ walk rooted (walk rooted out xs) ys
unfolding walk
walk-append rooted out [] ys = refl
walk-append rooted out (x ∷ xs) ys = walk-append rooted (enter rooted out x) xs ys

join-append :
    (k : Bytes) (ks : List Bytes) (p : Bytes) (ps : List Bytes)
    → join ((k ∷ ks) ++ (p ∷ ps)) slash ≡ join (k ∷ ks) slash ++ (b'/' ∷ join (p ∷ ps) slash)
unfolding join
join-append k [] p ps = refl
join-append k (l ∷ ks) p ps =
    rw (join-append l ks p ps) (sym (append_assoc k (slash ++ join (l ∷ ks) slash) _))

pub first_slash :
    (base t : Bytes) → eqb base [] ≡ false → has_prefix (base ++ t) slash ≡ has_prefix base slash
unfolding has_prefix eqb
first_slash [] t h = cc
first_slash (c ∷ base) t h = refl

append-nonempty : (s t : Bytes) → eqb s [] ≡ false → eqb (s ++ t) [] ≡ false
unfolding eqb
append-nonempty [] t h = cc
append-nonempty (c ∷ s) t h = refl

pub name-relative :
    (p : Bytes) (ps : List Bytes) → IsName p → has_prefix (join (p ∷ ps) slash) slash ≡ false
unfolding join has_prefix eqb
name-relative [] ps n = let e = n.0 in cc
name-relative (c ∷ p) [] (e, d, n, (k, ks)) = rw k refl
name-relative (c ∷ p) (q ∷ ps) (e, d, n, (k, ks)) = rw k refl

pub kept-nonempty : (base k : Bytes) (ks : List Bytes) → kept base ≡ k ∷ ks → eqb base [] ≡ false
unfolding kept walk enter split has_prefix eqb
kept-nonempty [] k ks h = cc
kept-nonempty (c ∷ base) k ks h = refl

module _ (p : Bytes) (ps : List Bytes) (names : All IsName (p ∷ ps)) where
  parts_of_names : split (join (p ∷ ps) slash) b'/' ≡ p ∷ ps
  parts_of_names = split-join p ps (names-NoSlash (p ∷ ps) names)

  names-relative : has_prefix (join (p ∷ ps) slash) slash ≡ false
  names-relative = name-relative p ps names.0

  pub clean_names : clean (join (p ∷ ps) slash) ≡ join (p ∷ ps) slash
  unfolding clean kept
  clean_names =
      rw
        (
          names-relative,
          parts_of_names,
          walk_names false [] (p ∷ ps) names,
          join_nonempty p ps names.0.0,
        )
        refl

  kept_under :
      (base : Bytes)
      → eqb base [] ≡ false
      → kept (base ++ (b'/' ∷ join (p ∷ ps) slash)) ≡ kept base ++ (p ∷ ps)
  unfolding kept
  kept_under base h =
      rw
        (
          first_slash base (b'/' ∷ join (p ∷ ps) slash) h,
          split-append base (join (p ∷ ps) slash),
          parts_of_names,
          walk-append (has_prefix base slash) [] (split base b'/') (p ∷ ps),
        )
        (walk_names (has_prefix base slash) (walk (has_prefix base slash) [] (split base b'/'))
          (p ∷ ps) names)

  pub clean_under :
      (base k : Bytes) (ks : List Bytes)
      → kept base ≡ k ∷ ks
      → clean (base ++ (b'/' ∷ join (p ∷ ps) slash)) ≡ clean base ++ (b'/' ∷ join (p ∷ ps) slash)
  unfolding clean
  clean_under base k ks h =
      let tail = b'/' ∷ join (p ∷ ps) slash in
      let full = kept-nonempty base k ks h in
      elim (Bool-cases (has_prefix base slash)) [
        | inl r ↦
            rw (first_slash base tail full, r, kept_under base full, h, join-append k ks p ps) refl
        | inr r ↦
            let some_name = kept_nonempty base k ks r h in
            rw
              (
                first_slash base tail full,
                r,
                kept_under base full,
                h,
                join-append k ks p ps,
                append-nonempty (join (k ∷ ks) slash) tail some_name,
                some_name,
              )
              refl
      ]

stays : (rooted : Bool) (out : List Bytes) → walk rooted out (split dot b'/') ≡ out
unfolding walk enter split eqb
stays rooted out = refl

kept_here : (base : Bytes) → eqb base [] ≡ false → kept (base ++ (b'/' ∷ dot)) ≡ kept base
unfolding kept
kept_here base h =
    rw
      (
        first_slash base (b'/' ∷ dot) h,
        split-append base dot,
        walk-append (has_prefix base slash) [] (split base b'/') (split dot b'/'),
      )
      last
  where
    last :
        walk
          (has_prefix base slash)
          (walk (has_prefix base slash) [] (split base b'/'))
          (split dot b'/')
        ≡ walk (has_prefix base slash) [] (split base b'/')
    last = stays _ _

-- The element "." adds nothing.
pub clean_here : (base : Bytes) → eqb base [] ≡ false → clean (base ++ (b'/' ∷ dot)) ≡ clean base
unfolding clean
clean_here base h = rw (first_slash base (b'/' ∷ dot) h, kept_here base h) refl
