-- ===== src/Worker/Execute.antt =====
-- server/internal/worker/worker.go: one attempt of tryExecuteBuild, with executeBuild, downloadContext and
-- downloadContextHTTP. The answers of the server and of S3, the faults of the disk, and buildkit's Build
-- are parameters of the attempt. `none` stands for a panic: a fingerprint that is too short to be cut.
use buildkit_multipartable.Base.{
  ℕ, ◌+◌, ◌-◌, ◌*◌, ◌%◌, ◌^◌, ℤ, pos, negsuc, Bool, true, false, not, List, [], ◌∷◌, ◌++◌, Option,
  none, some, Bytes, codes, eqb, length, take, ltb, ltb_ℤ, ◌==◌, if◌then◌else◌, Result, ok, err,
  ◌>>=◌,
}
use buildkit_multipartable.Domain.{Build, Status, succeeded, failed, cancelled, Rate}
use buildkit_multipartable.Paths.{join_path}
use buildkit_multipartable.Blobs.{Device}
use buildkit_multipartable.Archive.{Archive, Tree, extract_tar_gz}
use buildkit_multipartable.Buildkit.Run.{BuildOptions, BuildError}
use buildkit_multipartable.Worker.{add_cache_keys}
use buildkit_multipartable.Worker.Folder.{
  Fault, no_folder, fetch_failed, bad_archive, build_cancelled, no_buildctl, bad_status, timed_out,
  build_failed, place_dockerfile, removed,
}

-- the fields of Worker that an attempt uses
pub record Worker : Type 0 where
  pub work_dir : Bytes
  pub cache_registry : Bytes
  pub cache_keys : List Bytes

-- The S3 client: not configured, a failed GetObject or Stat, or the object.
pub data S3 : Type 0 where
  no_client unavailable : S3
  object : Archive → S3

-- What an attempt meets. `next`, `context` and `checks` are answers with their status code: `none` if the
-- request fails, and the body `none` if it does not decode. `first_check` and `last_check` are those of
-- isBuildCancelled before and after the build. `stays` are the paths that RemoveAll fails to remove, whose
-- error is ignored.
pub record Attempt : Type 0 where
  pub next : Option (ℕ × Option Build)
  pub makes_folder : Bool
  pub s3 : S3
  pub context : Option (ℕ × Archive)
  pub device : Device
  pub first_check : Option (Option Status)
  pub has_buildctl : Bool
  pub run : ℤ → BuildOptions → Result BuildError Rate
  pub past_deadline : Bool
  pub stays : Bytes → Bool
  pub last_check : Option (Option Status)

-- the body of the request of completeBuild
pub record Report : Type 0 where
  pub build_id : Bytes
  pub status : Status
  pub error : Option Fault
  pub cache_rate : Rate

-- downloadContextHTTP
unfoldable pub download_context_http : Attempt → Bytes → Tree → Tree × Option Fault
download_context_http a dest t = elim a.context [
  | none ↦ (t, some fetch_failed)
  | some (code, archive) ↦
      if not (code == 200)
      then (t, some (bad_status code))
      else let (t', fine) = extract_tar_gz a.device dest archive t in
        (t', if fine then none else some bad_archive)
]

-- downloadContext
unfoldable pub download_context : Attempt → Bytes → Tree → Tree × Option Fault
unfolding download_context_http
download_context a dest t = elim a.s3 [
  | no_client ↦ download_context_http a dest t
  | unavailable ↦ download_context_http a dest t
  | object archive ↦
      let (t', fine) = extract_tar_gz a.device dest archive t in
      (t', if fine then none else some bad_archive)
]

-- isBuildCancelled
unfoldable pub is_build_cancelled : Option (Option Status) → Bool
is_build_cancelled (some (some cancelled)) = true
is_build_cancelled _ = false

-- a product as time.Duration, which has 64 bits
abbrev pub wrap : ℤ → ℤ
wrap (pos n) = let m = n % 2 ^ 64 in if ltb m (2 ^ 63) then pos m else negsuc (2 ^ 64 - 1 - m)
wrap (negsuc n) = let m = n % 2 ^ 64 in if ltb m (2 ^ 63) then negsuc m else pos (2 ^ 64 - 1 - m)

abbrev pub seconds : ℤ → ℤ
seconds (pos n) = wrap (pos (n * 1000000000))
seconds (negsuc n) = wrap (negsuc ((n + 1) * 1000000000 - 1))

-- executeBuild: the timeout in nanoseconds
unfoldable pub build_timeout : ℤ → ℤ
build_timeout s = if ltb_ℤ (pos 0) (seconds s) then seconds s else pos (600 * 1000000000)

-- s[:n], which panics if s is shorter
abbrev pub cut : ℕ → Bytes → Option Bytes
cut n s = if ltb (length s) n then none else some (take n s)

-- executeBuild: the reference of the cache
unfoldable pub cache_ref : Bytes → Build → Option Bytes
cache_ref registry b =
    if eqb registry [] then some [] else do f ← cut 16 b.fingerprint; some (registry ++ (b'/' ∷ f))

abbrev pub options : Build → Bytes → Bytes → Bytes → BuildOptions
options b dir dockerfile ref = record {
  context_dir = dir;
  dockerfile = dockerfile;
  output_tag = b.image_tag;
  cache_from = ref;
  cache_to = ref;
  build_args = b.args;
}

-- executeBuild: what comes of Build
unfoldable pub executed : Attempt → ℤ → Result BuildError Rate → Result Fault Rate
executed a timeout (ok rate) = ok rate
executed a timeout (err e) =
    if a.past_deadline
    then err (timed_out timeout)
    else if is_build_cancelled a.last_check
    then err build_cancelled
    else err (build_failed e)

-- executeBuild
unfoldable pub execute_build : Worker → Attempt → Build → Bytes → Bytes → Option (Result Fault Rate)
unfolding executed cache_ref is_build_cancelled
execute_build w a b dir dockerfile =
    if is_build_cancelled a.first_check
    then some (err build_cancelled)
    else if not a.has_buildctl
    then some (err no_buildctl)
    else do
      ref ← cache_ref w.cache_registry b
      let timeout = build_timeout b.timeout_seconds
      some (executed a timeout (a.run timeout (options b dir dockerfile ref)))

abbrev pub unknown_rate : Rate
unknown_rate = record { num = negsuc 0; den = 1 }

abbrev pub failure : Build → Fault → Report
failure b e = record { build_id = b.id; status = failed; error = some e; cache_rate = unknown_rate }

-- tryExecuteBuild: the worker afterwards and the report
unfoldable pub finished : Worker → Build → Result Fault Rate → Worker × Option Report
finished w b (err e) = (w, some (failure b e))
finished w b (ok rate) = (
  record w { cache_keys = add_cache_keys w.cache_keys b.instructions },
  some (record { build_id = b.id; status = succeeded; error = none; cache_rate = rate }),
)

unfoldable pub run_placed :
    Worker → Attempt → Build → Bytes → Result Fault Bytes → Option (Worker × Option Report)
unfolding finished execute_build
run_placed w a b dir (err e) = some (w, some (failure b e))
run_placed w a b dir (ok dockerfile) = do
  r ← execute_build w a b dir dockerfile
  some (finished w b r)

-- tryExecuteBuild after the download
unfoldable pub place_and_run :
    Worker → Attempt → Build → Bytes → Tree → Option ((Worker × Option Report) × Tree)
unfolding run_placed place_dockerfile
place_and_run w a b dir t = do
  r ← run_placed w a b dir (place_dockerfile a.device b dir t).1
  some (r, removed a.stays dir (place_dockerfile a.device b dir t).0)

-- filepath.Join(w.WorkDir, "builds", build.ID)
abbrev pub context_dir : Worker → Build → Bytes
context_dir w b = join_path (join_path w.work_dir (codes "builds")) b.id

unfoldable pub run_downloaded :
    Worker → Attempt → Build → Tree × Option Fault → Option ((Worker × Option Report) × Tree)
unfolding place_and_run
run_downloaded w a b (t, some e) =
    some ((w, some (failure b e)), removed a.stays (context_dir w b) t)
run_downloaded w a b (t, none) = place_and_run w a b (context_dir w b) t

-- tryExecuteBuild for an assigned build
unfoldable pub attempt_build :
    Worker → Attempt → Build → Tree → Option ((Worker × Option Report) × Tree)
unfolding run_downloaded download_context
attempt_build w a b t = cut 12 b.fingerprint >>= λ logged.
    if not a.makes_folder
    then some ((w, some (failure b no_folder)), t)
    else run_downloaded w a b (download_context a (context_dir w b) t)

-- tryExecuteBuild: the build of the answer, if it is one to execute
unfoldable pub assigned : Option (ℕ × Option Build) → Option Build
assigned none = none
assigned (some (code, none)) = none
assigned (some (code, some b)) =
    if code == 204
    then none
    else if not (code == 200)
    then none
    else if eqb b.id []
    then none
    else some b

-- tryExecuteBuild: the worker afterwards, the report, if one is sent, and the disk
unfoldable pub try_execute_build :
    Worker → Attempt → Tree → Option ((Worker × Option Report) × Tree)
unfolding attempt_build assigned
try_execute_build w a t = elim (assigned a.next) [
  | none ↦ some ((w, none), t)
  | some b ↦ attempt_build w a b t
]
