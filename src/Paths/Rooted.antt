-- ===== src/Paths/Rooted.antt =====
-- Absolute paths: what filepath.Clean makes of them, and what is below a folder.
use mathlib.Core.List.{append_assoc}
use buildkit_multipartable.Base.{
  ◌≡◌, refl, ◌∙◌, ap, subst, sym, true, List, [], ◌∷◌, ◌++◌, Bytes, eqb, arith, All, Bool-cases,
  inl, inr, ◌==◌, ◌≢◌, length, length-append,
}
use buildkit_multipartable.Strings.{has_prefix, split, join, cons_head}
use buildkit_multipartable.Paths.{slash, kept, walk, enter, clean}
use buildkit_multipartable.Paths.Parts.{
  NoSlash, IsName, split-append, split-join, has_prefix-append, All-suffix,
}
use buildkit_multipartable.Paths.Walk.{kept-IsName, walk_names}

pub names-NoSlash : (ps : List Bytes) → All IsName ps → All NoSlash ps
names-NoSlash [] a = tt
names-NoSlash (p ∷ ps) ((_, _, _, k), a) = (k, names-NoSlash ps a)

pub split_cons : (s : Bytes) → (p : Bytes) × (ps : List Bytes) × (split s b'/' ≡ p ∷ ps)
unfolding split
split_cons [] = ([], [], refl)
split_cons (c ∷ s) =
    let rest = split_cons s in
    elim (Bool-cases (c == b'/')) [
      | inl e ↦ ([], split s b'/', rw e refl)
      | inr e ↦ (c ∷ rest.0, rest.1, rw (e, rest.2) refl)
    ]

pub join-split : (s : Bytes) → join (split s b'/') slash ≡ s
unfolding split join
join-split [] = refl
join-split (c ∷ s) = elim (Bool-cases (c == b'/')) [
  | inl e ↦
      let first = split_cons s in
      rw (e, first.2) (ground (arith, e, ap (λ xs. join xs slash) first.2, join-split s))
  | inr e ↦ rw e (put (split s b'/') (join-split s))
]
  where
    put : (ps : List Bytes) → join ps slash ≡ s → join (cons_head c ps) slash ≡ c ∷ s
    put [] h = ap (λ t. c ∷ t) h
    put (p ∷ []) h = ap (λ t. c ∷ t) h
    put (p ∷ q ∷ qs) h = ap (λ t. c ∷ t) h

-- A path that is a folder, a slash, and one or more names.
abbrev pub IsBelow : Bytes → Bytes → Type 0
IsBelow dir path =
    (p : Bytes) × (ps : List Bytes) × All IsName (p ∷ ps)
    × (path ≡ dir ++ (b'/' ∷ join (p ∷ ps) slash))

no_parts : (s r : Bytes) → [] ∷ [] ≢ split s b'/' ++ split r b'/'
no_parts s r e =
    let first = split_cons s in
    let last = split_cons r in
    omega (
      arith,
      ap length e,
      length-append {0} (split s b'/') (split r b'/'),
      ap length first.2,
      ap length last.2,
    )

-- An absolute path that begins with a folder and a slash.
rooted-IsBelow :
    (dir : Bytes) (ks : List Bytes) (r : Bytes)
    → All IsName ks
    → join ks slash ≡ dir ++ (b'/' ∷ r)
    → IsBelow (b'/' ∷ dir) (b'/' ∷ join ks slash)
unfolding split join
rooted-IsBelow dir [] r k e =
    absurd (no_parts dir r (ap (λ s. split s b'/') e ∙ split-append dir r))
rooted-IsBelow dir (p ∷ ps) r k e =
    let last = split_cons r in
    let parts : p ∷ ps ≡ split dir b'/' ++ split r b'/' =
      sym (split-join p ps (names-NoSlash (p ∷ ps) k))
      ∙ (ap (λ s. split s b'/') e ∙ split-append dir r) in
    let below : All IsName (split r b'/') =
      All-suffix IsName (split dir b'/') (split r b'/') (subst (All IsName) parts k) in
    (
      last.0,
      last.1,
      subst (All IsName) last.2 below,
      ap (λ s. b'/' ∷ s) e
          ∙ ap (λ s. b'/' ∷ (dir ++ (b'/' ∷ s)))
              (sym (join-split r) ∙ ap (λ ps. join ps slash) last.2),
    )

kept_rooted : (ks : List Bytes) → All IsName ks → kept (b'/' ∷ join ks slash) ≡ ks
unfolding kept walk enter eqb split join has_prefix
kept_rooted [] k = refl
kept_rooted (p ∷ ps) k =
    rw (split-join p ps (names-NoSlash (p ∷ ps) k)) (walk_names true [] (p ∷ ps) k)

pub clean_rooted :
    (path : Bytes) → has_prefix path slash ≡ true → clean path ≡ b'/' ∷ join (kept path) slash
unfolding clean
clean_rooted path h = rw h refl

pub clean-has_prefix :
    (path : Bytes) → has_prefix path slash ≡ true → has_prefix (clean path) slash ≡ true
unfolding has_prefix
clean-has_prefix path h = rw (clean_rooted path h) refl

-- Cleaning an absolute path again changes nothing.
pub clean-clean : (path : Bytes) → has_prefix path slash ≡ true → clean (clean path) ≡ clean path
clean-clean path h =
    clean_rooted (clean path) (clean-has_prefix path h)
    ∙ rw (clean_rooted path h, kept_rooted (kept path) (kept-IsName path h)) refl

-- A cleaned absolute path with a cleaned absolute folder and a slash for prefix.
pub clean-IsBelow :
    (dir path : Bytes)
    → has_prefix dir slash ≡ true
    → has_prefix path slash ≡ true
    → has_prefix (clean path) (clean dir ++ slash) ≡ true
    → IsBelow (clean dir) (clean path)
clean-IsBelow dir path d p h =
    let rest = has_prefix-append (clean path) (clean dir ++ slash) h in
    rw (clean_rooted dir d, clean_rooted path p)
      (rooted-IsBelow (join (kept dir) slash) (kept path) rest.0 (kept-IsName path p) (
        ground (
          arith,
          clean_rooted dir d,
          clean_rooted path p,
          rest.1,
          append_assoc (join (kept dir) slash) slash rest.0,
        )))
