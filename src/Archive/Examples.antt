-- ===== src/Archive/Examples.antt =====
-- Runs of tarGz and extractTarGz.
use buildkit_multipartable.Base.{
  ◌≡◌, refl, Bool, true, false, List, [], ◌∷◌, ◌++◌, Option, none, some, Bytes, codes, All, read,
  write,
}
use buildkit_multipartable.Strings.{has_prefix, split, join}
use buildkit_multipartable.Paths.{slash, kept, walk, enter, backtracks, drop_last, clean, join_path}
use buildkit_multipartable.Paths.Parts.{IsName}
use buildkit_multipartable.Paths.Rooted.{IsBelow}
use buildkit_multipartable.Blobs.Examples.{device, device-IsHealthy, base, base-IsFolder}
use buildkit_multipartable.Archive.{
  type_reg, Archive, Tree, extract_tar_gz, extract_loop, extract_entry, is_inside, Node, folder,
  file, nil, node, tar_gz,
}
use buildkit_multipartable.Archive.Safe.{extract_tar_gz_outside}
use buildkit_multipartable.Archive.Lookup.{find, IsTidy, absent, or_before}
use buildkit_multipartable.Archive.Readable.{is_readable}
use buildkit_multipartable.Archive.RoundTrip.{extract_tar_gz-tar_gz}

abbrev context : Node
context = folder (
    node (codes "Dockerfile") (file (some (codes "FROM x")))
      (node (codes "src") (folder (node (codes "a.go") (file (some (codes "go"))) nil)) nil))

context-IsTidy : IsTidy context
unfolding IsTidy absent buildkit_multipartable.Base.Text.eqb
context-IsTidy = (
  (
    refl,
    refl,
    refl,
    (refl, (refl, (refl, (refl, (refl, (refl, (refl, (refl, (refl, (refl, tt)))))))))),
  ),
  refl,
  tt,
  (
    (refl, refl, refl, (refl, (refl, (refl, tt)))),
    refl,
    ((refl, refl, refl, (refl, (refl, (refl, (refl, tt))))), refl, tt, tt),
    tt,
  ),
)

abbrev empty : Tree
empty = record { files = []; dirs = [] }

extract_tar_gz-tar_gz_example :
    (a : Archive) × (tar_gz context ≡ some a)
    × ((extract_tar_gz device base a empty).1 ≡ true)
    × ((p : Bytes) (ps : List Bytes)
        → All IsName (p ∷ ps)
        → read
            (clean base ++ (b'/' ∷ join (p ∷ ps) slash))
            (extract_tar_gz device base a empty).0.files
          ≡ or_before
              (find (p ∷ ps) context)
              (read (clean base ++ (b'/' ∷ join (p ∷ ps) slash)) empty.files))
unfolding is_readable has_prefix
extract_tar_gz-tar_gz_example =
    extract_tar_gz-tar_gz device base context empty device-IsHealthy refl base-IsFolder
      context-IsTidy refl

abbrev climbing : Archive
climbing = record {
  is_gzip = true;
  entries =
      record { name = codes "../../etc/passwd"; typeflag = type_reg; content = codes "x" } ∷ [];
  broken = false;
}

skipped : extract_tar_gz device base climbing empty ≡ (empty, true)
unfolding extract_tar_gz extract_loop extract_entry is_inside join_path clean kept walk enter
    has_prefix split join backtracks drop_last buildkit_multipartable.Base.Text.eqb
skipped = refl

outside : ¬ IsBelow (clean base) (codes "/etc/passwd")
unfolding clean kept walk enter has_prefix split join backtracks drop_last
    buildkit_multipartable.Base.Text.eqb
outside (p, ps, a, e) = cc

extract_tar_gz_outside_example :
    read (codes "/etc/passwd") (extract_tar_gz device base climbing empty).0.files
    ≡ read (codes "/etc/passwd") empty.files
unfolding has_prefix
extract_tar_gz_outside_example =
    extract_tar_gz_outside device base (codes "/etc/passwd") climbing empty refl outside
