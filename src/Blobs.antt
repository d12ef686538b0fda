-- ===== src/Blobs.antt =====
-- server/internal/oss/oss.go, and serveBlob of server/internal/api/server.go. The file system and the
-- S3 client are parameters: which calls fail, and where a copy breaks off.
pub mod Keys
pub mod Contract
pub mod Serve
pub mod Contexts
pub mod Escape
pub mod Refine
pub mod Examples
use buildkit_multipartable.Base.{
  ℕ, Bool, true, false, not, ◌&&◌, ◌||◌, List, [], ◌∷◌, ◌++◌, Option, none, some, Bytes, codes, eqb,
  length, take, if◌then◌else◌, Result, ok, err, Files, read, write, erase,
}
use buildkit_multipartable.Strings.{has_prefix, contains, to_lower, trim_prefix}
use buildkit_multipartable.Paths.{slash, dots, clean, join_path, dir}

-- what a reader gives, and whether it ends by an error
pub record Reader : Type 0 where
  pub content : Bytes
  pub broken : Bool

-- Which calls of the file system succeed, and the number of bytes after which a copy to or from a file
-- breaks off, if it does. `emptied` are the folders that were made and have no file left, whose path no
-- file can be created at: `creates` is false there.
pub record Device : Type 0 where
  pub makes_dir : Bytes → Bool
  pub creates : Bytes → Bool
  pub takes : Bytes → Option ℕ
  pub gives : Bytes → Option ℕ
  pub removes : Bytes → Bool
  pub emptied : Bytes → Bool

-- io.Copy: the bytes that arrive, and whether all do
unfoldable pub copied : Option ℕ → Reader → Bytes × Bool
copied none r = (r.content, not r.broken)
copied (some n) r = (take n r.content, false)

abbrev pub count_or_err : Bytes × Bool → Result (Unit {0}) ℕ
count_or_err (content, true) = ok (length content)
count_or_err (content, false) = err tt

-- BlobStore, for the state behind it. Get also gives the bytes that it wrote to its writer.
pub record BlobStore (S : Type 0) : Type 0 where
  pub put : Bytes → Reader → S → S × Result (Unit {0}) ℕ
  pub get : Bytes → S → Bytes × Result (Unit {0}) ℕ
  pub delete : Bytes → S → S × Result (Unit {0}) (Unit {0})

-- LocalStore.resolveKey
unfoldable pub resolve_key : Bytes → Bytes → Bytes
resolve_key base key = join_path base (clean key)

-- A file is above or below the path, so that no file can be at the path.
unfoldable pub collides : Bytes → Files → Bool
collides p [] = false
collides p (f ∷ fs) = has_prefix p (f.0 ++ slash) || (has_prefix f.0 (p ++ slash) || collides p fs)

-- LocalStore.Put
unfoldable pub put_local : Device → Bytes → Bytes → Reader → Files → Files × Result (Unit {0}) ℕ
unfolding copied
put_local dev base key r files =
    let p = resolve_key base key in
    if not (dev.makes_dir (dir p))
    then (files, err tt)
    else if collides p files || not (dev.creates p)
    then (files, err tt)
    else let c = copied (dev.takes p) r in (write p c.0 files, count_or_err c)

-- LocalStore.Get
unfoldable pub get_local : Device → Bytes → Bytes → Files → Bytes × Result (Unit {0}) ℕ
unfolding copied
get_local dev base key files =
    let p = resolve_key base key in
    elim (read p files) [
      | none ↦ ([], err tt)
      | some content ↦
          let c = copied (dev.gives p) (record { content = content; broken = false }) in
          (c.0, count_or_err c)
    ]

-- LocalStore.Delete. os.Remove removes a file, or a folder that is empty.
unfoldable pub delete_local : Device → Bytes → Bytes → Files → Files × Result (Unit {0}) (Unit {0})
delete_local dev base key files =
    let p = resolve_key base key in
    elim (read p files) [
      | none ↦ (
        files,
        if dev.emptied p && (not (collides p files) && dev.removes p) then ok tt else err tt,
      )
      | some content ↦ if dev.removes p then (erase p files, ok tt) else (files, err tt)
    ]

abbrev pub local_store : Device → Bytes → BlobStore Files
local_store dev base = record {
  put = put_local dev base;
  get = get_local dev base;
  delete = delete_local dev base;
}

-- The operations of the S3 client that S3Store calls, for a bucket.
pub record Minio (S : Type 0) : Type 0 where
  pub put_object : Bytes → Bytes → Bytes → S → S × Result (Unit {0}) ℕ
  pub get_object : Bytes → Bytes → S → Result (Unit {0}) Reader
  pub remove_object : Bytes → Bytes → S → S × Result (Unit {0}) (Unit {0})

-- S3Store.Put
unfoldable pub put_s3 :
    {S : Type 0} → Minio S → Bytes → Bytes → Reader → S → S × Result (Unit {0}) ℕ
put_s3 m bucket key r s = if r.broken then (s, err tt) else m.put_object bucket key r.content s

-- S3Store.Get
unfoldable pub get_s3 : {S : Type 0} → Minio S → Bytes → Bytes → S → Bytes × Result (Unit {0}) ℕ
unfolding copied
get_s3 m bucket key s = elim (m.get_object bucket key s) [
  | err e ↦ ([], err tt)
  | ok r ↦ let c = copied none r in (c.0, count_or_err c)
]

-- S3Store.Delete
abbrev pub s3_store : {S : Type 0} → Minio S → Bytes → BlobStore S
s3_store m bucket = record {
  put = put_s3 m bucket;
  get = get_s3 m bucket;
  delete = m.remove_object bucket;
}

pub record S3Config : Type 0 where
  pub endpoint : Bytes
  pub access_key : Bytes
  pub secret_key : Bytes
  pub bucket : Bytes
  pub use_ssl : Bool

abbrev pub or_default : Bytes → Bytes → Bytes
or_default v fallback = if eqb v [] then fallback else v

-- the configuration that NewStoreFromEnv reads, for os.Getenv
unfoldable pub s3_config : (Bytes → Bytes) → S3Config
s3_config getenv = record {
  endpoint = getenv (codes "S3_ENDPOINT");
  access_key = or_default (getenv (codes "S3_ACCESS_KEY")) (codes "admin");
  secret_key = or_default (getenv (codes "S3_SECRET_KEY")) (codes "password");
  bucket = or_default (getenv (codes "S3_BUCKET")) (codes "dtbuildkit");
  use_ssl = eqb (to_lower (getenv (codes "S3_USE_SSL"))) (codes "true");
}

-- What the S3 server answers to a new client: whether the client is made, whether the bucket exists,
-- with `none` for an error, and whether it can be made.
pub record Answers : Type 0 where
  pub connects : S3Config → Bool
  pub bucket_exists : Bytes → Option Bool
  pub makes_bucket : Bytes → Bool

pub data StoreError : Type 0 where
  create_dir create_client check_bucket create_bucket : StoreError

-- NewS3Store: the bucket
unfoldable pub new_s3_store : Answers → S3Config → Result StoreError Bytes
new_s3_store a cfg =
    if not (a.connects cfg) then err create_client else elim (a.bucket_exists cfg.bucket) [
      | none ↦ err check_bucket
      | some true ↦ ok cfg.bucket
      | some false ↦ if a.makes_bucket cfg.bucket then ok cfg.bucket else err create_bucket
    ]

-- a LocalStore with its folder, or an S3Store with its bucket
pub data Store : Type 0 where
  local : Bytes → Store
  s3 : Bytes → Store

-- NewLocalStore
unfoldable pub new_local_store : Device → Bytes → Result StoreError Bytes
new_local_store dev base = if dev.makes_dir base then ok base else err create_dir

abbrev pub made : (Bytes → Store) → Result StoreError Bytes → Result StoreError Store
made f (ok b) = ok (f b)
made f (err e) = err e

-- NewStoreFromEnv
unfoldable pub new_store_from_env :
    Device → Answers → (Bytes → Bytes) → Bytes → Result StoreError Store
new_store_from_env dev a getenv base =
    if eqb (getenv (codes "S3_ENDPOINT")) []
    then made local (new_local_store dev base)
    else made s3 (new_s3_store a (s3_config getenv))

-- serveBlob: the key, if it passes the checks
unfoldable pub blob_key : Bytes → Option Bytes
blob_key path =
    let key = trim_prefix path (codes "/api/v1/blobs/") in
    if eqb key [] || contains key dots || has_prefix key slash || contains key (0 ∷ [])
    then none
    else let cleaned = clean key in
      if not (eqb cleaned key) || has_prefix cleaned slash || has_prefix cleaned dots
      then none
      else some cleaned

abbrev pub line : Bytes → Bytes
line message = message ++ 10 ∷ []

-- What serveBlob writes. An error after the first byte comes too late for a status code of its own.
abbrev pub blob_reply : Bytes × Result (Unit {0}) ℕ → ℕ × Bytes
blob_reply (written, ok n) = (200, written)
blob_reply (written, err e) =
    (if eqb written [] then 404 else 200, written ++ line (codes "not found"))

-- serveBlob: the status code and the body
unfoldable pub serve_blob : {S : Type 0} → BlobStore S → Bytes → S → ℕ × Bytes
serve_blob store path s = elim (blob_key path) [
  | none ↦ (400, line (codes "invalid key"))
  | some key ↦ blob_reply (store.get key s)
]
