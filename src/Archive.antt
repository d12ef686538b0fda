-- ===== src/Archive.antt =====
-- tarGz of server/cmd/dtbuild/main.go, and extractTarGz of server/internal/worker/worker.go. An archive
-- is the list of its entries; the coding of tar and gzip is left out. filepath.Walk is given with
-- filepath.Rel: it visits the folder and what is in it with their paths relative to the folder.
pub mod Safe
pub mod Lookup
pub mod Readable
pub mod RoundTrip
mod Examples
use buildkit_multipartable.Base.{
  ℕ, Bool, true, false, not, List, [], ◌∷◌, ◌++◌, Option, none, some, Bytes, eqb, if◌then◌else◌,
  Result, ok, err, Files, write, ◌>>=◌,
}
use buildkit_multipartable.Strings.{has_prefix, join}
use buildkit_multipartable.Paths.{slash, dot, clean, join_path, dir}
use buildkit_multipartable.Blobs.{Device, copied}

-- hdr.Typeflag
pub data Typeflag : Type 0 where
  type_dir type_reg type_other : Typeflag

-- a header, and what can be read of the content after it
pub record Entry : Type 0 where
  pub name : Bytes
  pub typeflag : Typeflag
  pub content : Bytes

-- What a reader gives: whether it is gzip, the entries before the end or an error, and which it is.
pub record Archive : Type 0 where
  pub is_gzip : Bool
  pub entries : List Entry
  pub broken : Bool

-- the files of a disk, and the folders that MkdirAll was called for
pub record Tree : Type 0 where
  pub files : Files
  pub dirs : List Bytes

-- extractTarGz: the test on an entry's path
unfoldable pub is_inside : Bytes → Bytes → Bool
is_inside dest path = has_prefix (clean path) (clean dest ++ slash)

abbrev pub make_dir : Bytes → Tree → Tree
make_dir path t = record t { dirs = path ∷ t.dirs }

-- extractTarGz: the switch, with whether the loop goes on
unfoldable pub extract_at : Device → Bytes → Entry → Tree → Tree × Bool
unfolding copied
extract_at dev path e t = elim e.typeflag [
  | type_dir ↦ (make_dir path t, true)
  | type_other ↦ (t, true)
  | type_reg ↦
      let t' = make_dir (dir path) t in
      if dev.creates path
      then (
        record t' {
          files =
              write path
                (copied (dev.takes path) (record { content = e.content; broken = false })).0
                t.files;
        },
        true,
      )
      else (t', false)
]

-- one round of the loop
unfoldable pub extract_entry : Device → Bytes → Entry → Tree → Tree × Bool
unfolding is_inside
extract_entry dev dest e t =
    let path = join_path dest e.name in
    if is_inside dest path then extract_at dev path e t else (t, true)

unfoldable pub extract_loop : Device → Bytes → List Entry → Bool → Tree → Tree × Bool
extract_loop dev dest [] broken t = (t, not broken)
extract_loop dev dest (e ∷ es) broken t =
    let (t', goes_on) = extract_entry dev dest e t in
    let rest = extract_loop dev dest es broken t' in if goes_on then rest else (t', false)

-- extractTarGz, with whether there was no error
unfoldable pub extract_tar_gz : Device → Bytes → Archive → Tree → Tree × Bool
unfolding extract_loop
extract_tar_gz dev dest a t =
    if a.is_gzip then extract_loop dev dest a.entries a.broken t else (t, false)

-- What filepath.Walk finds. `unreadable` makes it call the function with an error; a file's content is
-- `none` if it cannot be opened or copied.
mutual
  pub data Node : Type 0 where
    folder : Nodes → Node
    file : Option Bytes → Node
    other : Node
    socket : Node
    unreadable : Node

  pub data Nodes : Type 0 where
    nil : Nodes
    node : Bytes → Node → Nodes → Nodes

unfoldable mutual
  -- the visits in order, each with its path relative to the folder
  pub visits : List Bytes → Node → List (List Bytes × Node)
  visits path (folder ns) = (path, folder ns) ∷ visits_in path ns
  visits path (file c) = (path, file c) ∷ []
  visits path other = (path, other) ∷ []
  visits path socket = (path, socket) ∷ []
  visits path unreadable = (path, unreadable) ∷ []

  pub visits_in : List Bytes → Nodes → List (List Bytes × Node)
  visits_in path nil = []
  visits_in path (node name n ns) = visits (path ++ name ∷ []) n ++ visits_in path ns

abbrev pub entry_of : Typeflag → List Bytes → Bytes → Entry
entry_of flag path content = record { name = join path slash; typeflag = flag; content = content }

-- tarGz: the function that Walk calls, with `none` for an error
unfoldable pub tar_entry : List Bytes → Node → Option (List Entry)
tar_entry path unreadable = none
tar_entry [] n = some []
tar_entry (p ∷ ps) (folder ns) = some (entry_of type_dir (p ∷ ps) [] ∷ [])
tar_entry (p ∷ ps) (file none) = none
tar_entry (p ∷ ps) (file (some c)) = some (entry_of type_reg (p ∷ ps) c ∷ [])
tar_entry (p ∷ ps) other = some (entry_of type_other (p ∷ ps) [] ∷ [])
tar_entry (p ∷ ps) socket = none

unfoldable pub tar_all : List (List Bytes × Node) → Option (List Entry)
unfolding tar_entry
tar_all [] = some []
tar_all (v ∷ vs) = do e ← tar_entry v.0 v.1; es ← tar_all vs; some (e ++ es)

-- tarGz
unfoldable pub tar_gz : Node → Option Archive
unfolding tar_all
tar_gz root = do
  es ← tar_all (visits [] root)
  some (record { is_gzip = true; entries = es; broken = false })
