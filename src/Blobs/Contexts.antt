-- ===== src/Blobs/Contexts.antt =====
-- The key under which submitBuild stores a context, and the path from which a worker fetches it.
use buildkit_multipartable.Base.{
  Bool, true, not, ◌&&◌, ◌||◌, none, ltb, if◌then◌else◌, ℕ, ◌≡◌, refl, ◌∙◌, false, [], ◌∷◌, ◌++◌,
  Option, some, Bytes, codes, eqb, eqb_refl, arith, All-append, ◌==◌,
}
use buildkit_multipartable.Strings.{join, contains, index, has_prefix, trim_prefix}
use buildkit_multipartable.Paths.{slash, dot, dots, clean}
use buildkit_multipartable.Paths.Parts.{NoSlash, IsName}
use buildkit_multipartable.Paths.Relative.{IsKey, join_nonempty}
use buildkit_multipartable.Paths.Under.{clean_names, name-relative}
use buildkit_multipartable.Api.{SubmitForm, form_submission}
use buildkit_multipartable.Blobs.{BlobStore, blob_key, serve_blob}
use buildkit_multipartable.Blobs.Contract.{Implements, whole}
use buildkit_multipartable.Blobs.Serve.{serve_blob_found}

prefix_of : (s sub : Bytes) → contains s sub ≡ false → has_prefix s sub ≡ false
unfolding contains index
prefix_of [] sub h = ground (arith, h)
prefix_of (c ∷ s) sub h = ground (arith, h)

-- A key without ".." and without a zero byte passes the checks.
blob_key_lem :
    (key : Bytes)
    → IsKey key
    → contains key dots ≡ false
    → contains key (0 ∷ []) ≡ false
    → blob_key (codes "/api/v1/blobs/" ++ key) ≡ some key
unfolding blob_key trim_prefix has_prefix
blob_key_lem key (p, ps, a, e) d z =
    let relative : has_prefix key slash ≡ false = rw e (name-relative p ps a.0) in
    let same : clean key ≡ key = rw e (clean_names p ps a) in
    let full : eqb key [] ≡ false = rw e (join_nonempty p ps a.0.0) in
    rw (full, d, relative, z, same, eqb_refl key, relative, prefix_of key dots d) refl

abbrev pub suffix : Bytes
suffix = codes ".tar.gz"

suffix-NoSlash : NoSlash suffix
suffix-NoSlash = (refl, (refl, (refl, (refl, (refl, (refl, (refl, tt)))))))

longer :
    (id : Bytes)
    → (eqb (id ++ suffix) [] ≡ false)
      × (eqb (id ++ suffix) dot ≡ false)
      × (eqb (id ++ suffix) dots ≡ false)
unfolding eqb
longer [] = (refl, refl, refl)
longer (a ∷ []) = (refl, ground arith, ground arith)
longer (a ∷ b ∷ []) = (refl, ground arith, ground arith)
longer (a ∷ b ∷ c ∷ id) = (refl, ground arith, ground arith)

pub suffix-IsName : (id : Bytes) → NoSlash id → IsName (id ++ suffix)
suffix-IsName id k =
    let (e, d, n) = longer id in
    (e, d, n, All-append (λ (c : ℕ). (c == b'/') ≡ false) id suffix k suffix-NoSlash)

-- The key of the context of build `id`.
abbrev pub context_key : Bytes → Bytes
context_key id = codes "contexts/" ++ (id ++ suffix)

pub context_key-IsKey : (id : Bytes) → NoSlash id → IsKey (context_key id)
unfolding join eqb
context_key-IsKey id k = (
  codes "contexts",
  (id ++ suffix) ∷ [],
  (
    (refl, refl, refl, (refl, (refl, (refl, (refl, (refl, (refl, (refl, (refl, tt))))))))),
    (suffix-IsName id k, tt),
  ),
  refl,
)

-- net/url takes the byte as it is in the path of a URL, and net/http sends it on: it does not begin the
-- query or the fragment, is no escape, and no control byte.
abbrev pub is_plain : ℕ → Bool
is_plain c = not (c == b'?' || (c == b'#' || (c == b'%' || (ltb c 32 || c == 127))))

unfoldable pub all_plain : Bytes → Bool
all_plain [] = true
all_plain (c ∷ cs) = is_plain c && all_plain cs

-- downloadContextHTTP: the path that the server sees, for a server's URL without a path; `none` where
-- net/url cuts, decodes or refuses the text
unfoldable pub fetched_path : Bytes → Option Bytes
unfolding all_plain
fetched_path id =
    if all_plain id then some (codes "/api/v1/blobs/contexts/" ++ (id ++ codes ".tar.gz")) else none

-- Where a store keeps the contract of BlobStore and has room for the key of the form, the context that
-- submitBuild stores under that key is what serveBlob answers with code 200 on the path that a worker
-- fetches, for the build's id if it has no slash, no question mark, no number sign, no per cent sign and
-- no control byte, and the key neither ".." nor a zero byte.
pub serve_blob-form_submission :
    {S : Type 0} (store : BlobStore S) (view : Bytes → S → Option Bytes) {Room : Bytes → S → Type 0}
    → Implements store view IsKey Room
    → (uuid api_key : Bytes) (form : SubmitForm) (context : Bytes) (s : S)
    → NoSlash (form_submission uuid api_key form).build_id
    → all_plain (form_submission uuid api_key form).build_id ≡ true
    → contains (form_submission uuid api_key form).ctx_key dots ≡ false
    → contains (form_submission uuid api_key form).ctx_key (0 ∷ []) ≡ false
    → Room (form_submission uuid api_key form).ctx_key s
    → (path : Bytes) × (fetched_path (form_submission uuid api_key form).build_id ≡ some path)
      × (serve_blob store path
            (store.put (form_submission uuid api_key form).ctx_key (whole context) s).0
          ≡ (200, context))
unfolding form_submission fetched_path
serve_blob-form_submission store view c uuid api_key form context s k plain d z room =
    let sub = form_submission uuid api_key form in
    let key = context_key-IsKey sub.build_id k in
    (
      codes "/api/v1/blobs/" ++ sub.ctx_key,
      rw plain refl,
      serve_blob_found store view c (codes "/api/v1/blobs/" ++ sub.ctx_key) sub.ctx_key
            (store.put sub.ctx_key (whole context) s).0 (blob_key_lem sub.ctx_key key d z) key
          ∙ rw (c.view-put sub.ctx_key sub.ctx_key context s key key room, eqb_refl sub.ctx_key)
              refl,
    )
