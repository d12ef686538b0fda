-- ===== src/Worker/Folder.antt =====
-- server/internal/worker/worker.go: the folder of a build in tryExecuteBuild, from its Dockerfile to its
-- removal.
use buildkit_multipartable.Base.{
  ◌&&◌, map, select, ◌||◌, not, ℕ, ℤ, Bool, false, List, [], ◌∷◌, ◌++◌, Bytes, codes, eqb,
  if◌then◌else◌, Result, ok, err, Files, write,
}
use buildkit_multipartable.Domain.{Build}
use buildkit_multipartable.Strings.{has_prefix}
use buildkit_multipartable.Paths.{slash, join_path}
use buildkit_multipartable.Blobs.{Device, copied}
use buildkit_multipartable.Archive.{Tree}
use buildkit_multipartable.Buildkit.Run.{BuildError}
use buildkit_multipartable.Worker.{is_inline}

-- the ways for an attempt to fail
pub data Fault : Type 0 where
  no_folder fetch_failed bad_archive no_dockerfile build_cancelled no_buildctl : Fault
  bad_status : ℕ → Fault
  timed_out : ℤ → Fault
  build_failed : BuildError → Fault

-- `path` itself, or something in the folder `path`
abbrev pub is_at : Bytes → Bytes → Bool
is_at path p = eqb p path || has_prefix p (path ++ slash)

unfoldable pub any_at : Bytes → List Bytes → Bool
any_at path [] = false
any_at path (p ∷ ps) = is_at path p || any_at path ps

-- os.Stat finds a file or a folder
unfoldable pub exists_at : Bytes → Tree → Bool
unfolding any_at
exists_at path t = any_at path (map (λ f. f.0) t.files) || any_at path t.dirs

-- tryExecuteBuild: the Dockerfile's name, after its content is written
unfoldable pub place_dockerfile : Device → Build → Bytes → Tree → Tree × Result Fault Bytes
unfolding exists_at
place_dockerfile dev b dir t =
    let path = join_path dir (codes "Dockerfile") in
    if not (is_inline b.dockerfile)
    then (t, ok b.dockerfile)
    else if exists_at path t
    then (t, ok (codes "Dockerfile"))
    else if not (dev.creates path)
    then (t, err no_dockerfile)
    else (
      record t {
        files =
            write path
              (copied (dev.takes path) (record { content = b.dockerfile; broken = false })).0
              t.files;
      },
      if (copied (dev.takes path) (record { content = b.dockerfile; broken = false })).1
          then ok (codes "Dockerfile")
          else err no_dockerfile,
    )

-- os.RemoveAll, which leaves the paths that the file system does not let go of
unfoldable pub remove_all : (Bytes → Bool) → Bytes → Files → Files
remove_all stays dir [] = []
remove_all stays dir (f ∷ fs) =
    let rest = remove_all stays dir fs in
    if is_at dir f.0 && not (stays f.0) then rest else f ∷ rest

abbrev pub removed : (Bytes → Bool) → Bytes → Tree → Tree
removed stays dir t = record {
  files = remove_all stays dir t.files;
  dirs = select (λ p. not (is_at dir p && not (stays p))) t.dirs;
}
