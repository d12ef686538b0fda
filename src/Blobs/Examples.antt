-- ===== src/Blobs/Examples.antt =====
-- Runs of oss.go and serveBlob.
use buildkit_multipartable.Base.{
  ◌≡◌, refl, true, false, List, [], ◌∷◌, ◌++◌, none, some, Bytes, codes, ok, err, Files, read,
  write, erase,
}
use buildkit_multipartable.Strings.{
  has_prefix, contains, split, join, index, trim_prefix, last_index,
}
use buildkit_multipartable.Paths.{kept, walk, enter, backtracks, drop_last, clean, join_path, dir}
use buildkit_multipartable.Paths.Rooted.{IsBelow}
use buildkit_multipartable.Paths.Relative.{IsKey}
use buildkit_multipartable.Api.{SubmitForm, form_submission}
use buildkit_multipartable.Blobs.{
  Device, collides, resolve_key, put_local, local_store, blob_key, serve_blob, copied,
}
use buildkit_multipartable.Blobs.Keys.{IsFolder}
use buildkit_multipartable.Blobs.Contract.{Implements, whole}
use buildkit_multipartable.Blobs.Refine.{
  IsHealthy, IsWorking, HasRoom, stored, local_store-Implements,
}
use buildkit_multipartable.Blobs.Serve.{Agree, serve_blob-Agree}
use buildkit_multipartable.Blobs.Contexts.{all_plain, fetched_path, serve_blob-form_submission}
use buildkit_multipartable.Blobs.Escape.{resolve_key_escapes}

abbrev pub device : Device
device = record {
  makes_dir = λ p. true;
  creates = λ p. true;
  takes = λ p. none;
  gives = λ p. none;
  removes = λ p. true;
  emptied = λ p. false;
}

abbrev full_device : Device
full_device = record device { takes = λ p. some 2 }

pub device-IsHealthy : IsHealthy device
device-IsHealthy = record {
  makes_dir-true = λ p. refl;
  creates-true = λ p. refl;
  takes-none = λ p. refl;
  gives-none = λ p. refl;
  removes-true = λ p. refl;
}

device-IsWorking : IsWorking device
device-IsWorking = record {
  makes_dir-true = λ p. refl;
  takes-none = λ p. refl;
  gives-none = λ p. refl;
  removes-true = λ p. refl;
}

abbrev pub base : Bytes
base = codes "/data/blobs"

pub base-IsFolder : IsFolder base
unfolding kept walk enter has_prefix split buildkit_multipartable.Base.Text.eqb
base-IsFolder = (codes "data", codes "blobs" ∷ [], refl)

above : join_path base (codes "x/../../y//z/.") ≡ codes "/data/y/z"
unfolding join_path clean kept walk enter has_prefix split join backtracks drop_last
    buildkit_multipartable.Base.Text.eqb
above = refl

truncated :
    put_local full_device base (codes "k") (whole (codes "abc")) []
    ≡ (write (codes "/data/blobs/k") (codes "ab") [], err tt)
unfolding put_local copied resolve_key join_path clean kept walk enter has_prefix split join
    backtracks dir last_index collides buildkit_multipartable.Base.Text.eqb
truncated = refl

rejected : blob_key (codes "/api/v1/blobs/a//b") ≡ none
unfolding blob_key trim_prefix clean kept walk enter has_prefix split join contains index
    buildkit_multipartable.Base.Text.eqb
rejected = refl

local_store-Implements_example :
    Implements (local_store device base) (stored base) IsKey (HasRoom device base)
local_store-Implements_example = local_store-Implements device base device-IsWorking base-IsFolder

abbrev disk : Files
disk = (codes "/etc/key", codes "1") ∷ (codes "/data/blobs/k", codes "2") ∷ []

abbrev same_disk : Files
same_disk = (codes "/data/blobs/k", codes "2") ∷ []

disks-Agree : Agree base disk same_disk
unfolding read clean kept walk enter has_prefix split join backtracks drop_last
    buildkit_multipartable.Base.Text.eqb
disks-Agree = (refl, λ p (below : IsBelow (clean base) p). same p below)
  where
    same : (p : Bytes) → IsBelow (clean base) p → read p disk ≡ read p same_disk
    same p (q, qs, a, e) = rw e refl

serve_blob-Agree_example :
    serve_blob (local_store device base) (codes "/api/v1/blobs/k") disk
    ≡ serve_blob (local_store device base) (codes "/api/v1/blobs/k") same_disk
serve_blob-Agree_example =
    serve_blob-Agree device base (codes "/api/v1/blobs/k") disk same_disk base-IsFolder disks-Agree

abbrev form : SubmitForm
form = record {
  has_context = true;
  build_id = codes "b-1";
  dockerfile = codes "FROM x";
  image_tag = codes "t";
  user_id = [];
}

-- A file is above the path of the key.
crossing : put_local device base (codes "k/l") (whole (codes "x")) disk ≡ (disk, err tt)
unfolding put_local collides resolve_key join_path clean kept walk enter has_prefix split join
    backtracks drop_last buildkit_multipartable.Base.Text.eqb
crossing = refl

serve_blob-form_submission_example :
    (path : Bytes) × (fetched_path (form_submission (codes "u") (codes "key") form).build_id
      ≡ some path)
    × (serve_blob
          (local_store device base)
          path
          (put_local device base
            (form_submission (codes "u") (codes "key") form).ctx_key
            (whole (codes "tar"))
            disk).0
        ≡ (200, codes "tar"))
unfolding form_submission contains index has_prefix all_plain collides resolve_key join_path clean
    kept walk enter split join backtracks drop_last buildkit_multipartable.Base.Text.eqb
serve_blob-form_submission_example =
    serve_blob-form_submission (local_store device base) (stored base)
      (local_store-Implements device base device-IsWorking base-IsFolder) (codes "u") (codes "key")
      form (codes "tar") disk (refl, (refl, (refl, tt))) refl refl refl (refl, refl)

abbrev climbing : SubmitForm
climbing = record form { build_id = codes "../../x" }

resolve_key_escapes_example :
    ¬ IsBelow (clean base) (resolve_key base (form_submission [] [] climbing).ctx_key)
unfolding has_prefix
resolve_key_escapes_example =
    resolve_key_escapes base [] [] (codes "x") climbing refl base-IsFolder (refl, tt) refl
