-- ===== src/Blobs/Serve.antt =====
-- serveBlob, over a LocalStore and over any store that keeps BlobStore's contract.
use buildkit_multipartable.Base.{
  ℕ, ◌≡◌, refl, ap, ◌∷◌, ◌++◌, Option, none, some, Bytes, codes, eqb, Option-cases, inl, inr, Files,
  read,
}
use buildkit_multipartable.Paths.{clean}
use buildkit_multipartable.Paths.Rooted.{IsBelow}
use buildkit_multipartable.Paths.Relative.{IsPlain, IsKey}
use buildkit_multipartable.Blobs.{
  BlobStore, Device, blob_key, serve_blob, resolve_key, get_local, local_store, line,
}
use buildkit_multipartable.Blobs.Keys.{IsFolder, blob_key-IsPlain, resolve_key_lem, resolve_key-dot}
use buildkit_multipartable.Blobs.Contract.{Implements}

-- The same file at the folder itself, and at each path below it.
abbrev pub Agree : Bytes → Files → Files → Type 0
Agree base xs ys =
    (read (clean base) xs ≡ read (clean base) ys)
    × ((p : Bytes) → IsBelow (clean base) p → read p xs ≡ read p ys)

read-plain :
    (base key : Bytes) (xs ys : Files)
    → IsFolder base
    → Agree base xs ys
    → IsPlain key
    → read (resolve_key base key) xs ≡ read (resolve_key base key) ys
read-plain base key xs ys f (here, below) (inl e) = rw (e, resolve_key-dot base f) here
read-plain base key xs ys f (here, below) (inr k) =
    let (p, ps, a, e) = k in
    rw (resolve_key_lem base key f k)
      (below (clean base ++ (b'/' ∷ key)) (p, ps, a, ap (λ s. clean base ++ (b'/' ∷ s)) e))

get_local-Agree :
    (dev : Device) (base key : Bytes) (xs ys : Files)
    → read (resolve_key base key) xs ≡ read (resolve_key base key) ys
    → get_local dev base key xs ≡ get_local dev base key ys
unfolding get_local
get_local-Agree dev base key xs ys e = rw (get_local, e) refl

-- Whatever the path of the request and the faults of the device, the answer depends only on the folder
-- of the LocalStore and on the files below it, if that folder is neither the root nor the current one:
-- two disks that agree on these files answer alike.
pub serve_blob-Agree :
    (dev : Device) (base path : Bytes) (xs ys : Files)
    → IsFolder base
    → Agree base xs ys
    → serve_blob (local_store dev base) path xs ≡ serve_blob (local_store dev base) path ys
unfolding serve_blob
serve_blob-Agree dev base path xs ys f a = elim (Option-cases (blob_key path)) [
  | inl e ↦ rw (serve_blob, e) refl
  | inr (key, e) ↦
      let same = read-plain base key xs ys f a (blob_key-IsPlain path key e) in
      rw (serve_blob, e, get_local-Agree dev base key xs ys same) refl
]

-- A file of the store, or "not found".
abbrev pub answer : Option Bytes → ℕ × Bytes
answer none = (404, line (codes "not found"))
answer (some content) = (200, content)

pub serve_blob_found :
    {S : Type 0} (store : BlobStore S) (view : Bytes → S → Option Bytes) {Room : Bytes → S → Type 0}
    → Implements store view IsKey Room
    → (path key : Bytes) (s : S) → blob_key path ≡ some key
    → IsKey key
    → serve_blob store path s ≡ answer (view key s)
unfolding serve_blob eqb
serve_blob_found store view c path key s e k = elim (Option-cases (view key s)) [
  | inl n ↦ rw (serve_blob, e, c.get-found key s k, n) refl
  | inr (content, n) ↦ rw (serve_blob, e, c.get-found key s k, n) refl
]
