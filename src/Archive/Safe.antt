-- ===== src/Archive/Safe.antt =====
-- extractTarGz and the files outside its folder.
use buildkit_multipartable.Base.{
  ◌≡◌, refl, ◌∙◌, subst, Bool, true, false, List, [], ◌∷◌, ◌++◌, Bytes, eqb, eqb_ne, arith,
  Bool-cases, inl, inr, read, read-write,
}
use buildkit_multipartable.Strings.{has_prefix}
use buildkit_multipartable.Paths.{slash, clean, join_path}
use buildkit_multipartable.Paths.Rooted.{IsBelow, clean-IsBelow, clean-clean, clean-has_prefix}
use buildkit_multipartable.Paths.Under.{first_slash}
use buildkit_multipartable.Blobs.{Device, copied}
use buildkit_multipartable.Archive.{
  Entry, Archive, Tree, is_inside, extract_at, extract_entry, extract_loop, extract_tar_gz,
}

pub nonempty : (path : Bytes) → has_prefix path slash ≡ true → eqb path [] ≡ false
unfolding has_prefix eqb
nonempty [] h = cc
nonempty (c ∷ path) h = refl

-- An entry's path is absolute and clean.
pub join_path_rooted :
    (dest name : Bytes)
    → has_prefix dest slash ≡ true
    → (has_prefix (join_path dest name) slash ≡ true)
      × (clean (join_path dest name) ≡ join_path dest name)
unfolding join_path
join_path_rooted dest name h = elim (Bool-cases (eqb name [])) [
  | inl e ↦ rw (nonempty dest h, e) (clean-has_prefix dest h, clean-clean dest h)
  | inr e ↦
      let path = dest ++ (b'/' ∷ name) in
      let r : has_prefix path slash ≡ true = first_slash dest (b'/' ∷ name) (nonempty dest h) ∙ h in
      rw (nonempty dest h, e) (clean-has_prefix path r, clean-clean path r)
]

is_inside-IsBelow :
    (dest name : Bytes)
    → has_prefix dest slash ≡ true
    → is_inside dest (join_path dest name) ≡ true
    → IsBelow (clean dest) (join_path dest name)
unfolding is_inside
is_inside-IsBelow dest name h inside =
    let (rooted, same) = join_path_rooted dest name h in
    subst (IsBelow (clean dest)) same (clean-IsBelow dest (join_path dest name) h rooted inside)

extract_at_other :
    (dev : Device) (path p : Bytes) (e : Entry) (t : Tree)
    → eqb path p ≡ false
    → read p (extract_at dev path e t).0.files ≡ read p t.files
unfolding extract_at
extract_at_other dev path p e t h =
    let c = (copied (dev.takes path) (record { content = e.content; broken = false })).0 in
    ground (arith, read-write p path c t.files, h)

-- A path that is not below the folder.
module _ (dev : Device) (dest p : Bytes) (rooted : has_prefix dest slash ≡ true)
    (outside : ¬ IsBelow (clean dest) p) where
  extract_entry_other :
      (e : Entry) (t : Tree) → read p (extract_entry dev dest e t).0.files ≡ read p t.files
  unfolding extract_entry
  extract_entry_other e t = elim (Bool-cases (is_inside dest (join_path dest e.name))) [
    | inr skipped ↦ rw (extract_entry, skipped) refl
    | inl inside ↦
        let below = is_inside-IsBelow dest e.name rooted inside in
        let ne : eqb (join_path dest e.name) p ≡ false =
          eqb_ne (join_path dest e.name) p (λ q. outside (subst (IsBelow (clean dest)) q below)) in
        rw (extract_entry, inside) (extract_at_other dev (join_path dest e.name) p e t ne)
  ]

  extract_loop_other :
      (es : List Entry) (broken : Bool) (t : Tree)
      → read p (extract_loop dev dest es broken t).0.files ≡ read p t.files
  unfolding extract_loop
  extract_loop_other [] broken t = refl
  extract_loop_other (e ∷ es) broken t =
      ground (
        arith,
        extract_entry_other e t,
        extract_loop_other es broken (extract_entry dev dest e t).0,
      )

-- Unpacking an archive, whatever the names in it and whatever fails on the way, leaves each file alone
-- that is not below the folder, if the folder's path is absolute.
pub extract_tar_gz_outside :
    (dev : Device) (dest p : Bytes) (a : Archive) (t : Tree)
    → has_prefix dest slash ≡ true
    → ¬ IsBelow (clean dest) p
    → read p (extract_tar_gz dev dest a t).0.files ≡ read p t.files
unfolding extract_tar_gz
extract_tar_gz_outside dev dest p a t rooted outside =
    ground (arith, extract_loop_other dev dest p rooted outside a.entries a.broken t)
