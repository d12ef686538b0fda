-- ===== src/Blobs/Keys.antt =====
-- The keys that serveBlob accepts, and the files of a LocalStore that they stand for.
use buildkit_multipartable.Base.{
  ◌≡◌, refl, ◌∙◌, false, List, [], ◌∷◌, ◌++◌, some, Bytes, codes, eqb, eqb_iff, arith,
}
use buildkit_multipartable.Strings.{has_prefix, trim_prefix, join, split}
use buildkit_multipartable.Paths.{slash, dot, dots, kept, walk, enter, clean, join_path}
use buildkit_multipartable.Paths.Relative.{IsPlain, IsKey, clean_relative, join_nonempty}
use buildkit_multipartable.Paths.Under.{clean_names, clean_under, clean_here, kept-nonempty}
use buildkit_multipartable.Blobs.{blob_key, resolve_key}

accepted :
    (path key : Bytes)
    → blob_key path ≡ some key
    → (has_prefix key slash ≡ false) × (clean key ≡ key) × (has_prefix key dots ≡ false)
unfolding blob_key
accepted path key h =
    let k = trim_prefix path (codes "/api/v1/blobs/") in ground (arith, h, eqb_iff (clean k) k)

pub blob_key-IsPlain : (path key : Bytes) → blob_key path ≡ some key → IsPlain key
blob_key-IsPlain path key h =
    let (relative, same, below) = accepted path key h in clean_relative key relative same below

-- A folder that is neither the root nor the current one.
abbrev pub IsFolder : Bytes → Type 0
IsFolder base = (k : Bytes) × (ks : List Bytes) × (kept base ≡ k ∷ ks)

pub resolve_key_lem :
    (base key : Bytes)
    → IsFolder base
    → IsKey key
    → resolve_key base key ≡ clean base ++ (b'/' ∷ key)
unfolding resolve_key join_path
resolve_key_lem base key (k, ks, f) (p, ps, a, e) =
    rw
      (
        e,
        clean_names p ps a,
        kept-nonempty base k ks f,
        join_nonempty p ps a.0.0,
        clean_under p ps a base k ks f,
      )
      refl

clean-dot : clean dot ≡ dot
unfolding clean has_prefix eqb join kept walk split enter
clean-dot = refl

pub resolve_key-dot : (base : Bytes) → IsFolder base → resolve_key base dot ≡ clean base
unfolding resolve_key join_path eqb
resolve_key-dot base (k, ks, f) =
    let full = kept-nonempty base k ks f in rw (clean-dot, full) (clean_here base full)

-- Two keys stand for the same file only if they are the same.
pub eqb-prefix : (d s t : Bytes) → eqb (d ++ s) (d ++ t) ≡ eqb s t
unfolding eqb
eqb-prefix [] s t = refl
eqb-prefix (c ∷ d) s t = ground (arith, eqb-prefix d s t)

pub resolve_key_distinct :
    (base k j : Bytes)
    → IsFolder base
    → IsKey k
    → IsKey j
    → eqb (resolve_key base k) (resolve_key base j) ≡ eqb k j
resolve_key_distinct base k j f hk hj =
    rw (resolve_key_lem base k f hk, resolve_key_lem base j f hj)
      (eqb-prefix (clean base) (b'/' ∷ k) (b'/' ∷ j) ∙ tail)
  where
    tail : eqb (b'/' ∷ k) (b'/' ∷ j) ≡ eqb k j
    tail = eqb-prefix slash k j
