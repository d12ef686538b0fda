-- ===== src/Paths.antt =====
-- Clean and Join of Go's package path/filepath, which server/internal/oss/oss.go,
-- server/internal/api/server.go, server/internal/worker/worker.go and server/cmd/dtbuild/main.go call.
pub mod Parts
pub mod Walk
pub mod Rooted
pub mod Relative
pub mod Under
use buildkit_multipartable.Base.{
  Bool, true, false, not, ◌||◌, none, some, take, suc, List, [], ◌∷◌, ◌++◌, Bytes, codes, eqb,
  if◌then◌else◌,
}
use buildkit_multipartable.Strings.{has_prefix, last_index, split, join}

abbrev pub slash : Bytes
slash = b'/' ∷ []

abbrev pub dot : Bytes
dot = b'.' ∷ []

abbrev pub dots : Bytes
dots = b'.' ∷ b'.' ∷ []

-- whether ".." can take back the last element
unfoldable pub backtracks : List Bytes → Bool
backtracks [] = false
backtracks (p ∷ []) = not (eqb p dots)
backtracks (p ∷ q ∷ ps) = backtracks (q ∷ ps)

unfoldable pub drop_last : List Bytes → List Bytes
drop_last [] = []
drop_last (p ∷ []) = []
drop_last (p ∷ q ∷ ps) = p ∷ drop_last (q ∷ ps)

-- one element of the path, after the elements that are kept
unfoldable pub enter : Bool → List Bytes → Bytes → List Bytes
enter rooted out part =
    if eqb part [] || eqb part dot
    then out
    else if eqb part dots
    then (if backtracks out then drop_last out else if rooted then out else out ++ part ∷ [])
    else out ++ part ∷ []

unfoldable pub walk : Bool → List Bytes → List Bytes → List Bytes
walk rooted out [] = out
walk rooted out (part ∷ parts) = walk rooted (enter rooted out part) parts

-- the elements that Clean keeps
unfoldable pub kept : Bytes → List Bytes
kept path = walk (has_prefix path slash) [] (split path b'/')

abbrev pub or_dot : Bytes → Bytes
or_dot path = if eqb path [] then dot else path

-- Clean
unfoldable pub clean : Bytes → Bytes
clean path =
    if has_prefix path slash then b'/' ∷ join (kept path) slash else or_dot (join (kept path) slash)

-- Join, of two elements
unfoldable pub join_path : Bytes → Bytes → Bytes
join_path dir name =
    if eqb dir []
    then (if eqb name [] then [] else clean name)
    else if eqb name []
    then clean dir
    else clean (dir ++ (b'/' ∷ name))

-- Dir
unfoldable pub dir : Bytes → Bytes
dir path = elim (last_index path slash) [ none ↦ clean [] | some i ↦ clean (take (suc i) path) ]
