-- ===== src/Archive/Readable.antt =====
-- The folders that tarGz packs without an error.
use buildkit_multipartable.Base.{
  ◌≡◌, refl, ap, Bool, true, false, ◌&&◌, List, [], ◌∷◌, ◌++◌, none, some, Bytes, arith, All,
  All-append, ◌>>=◌,
}
use buildkit_multipartable.Archive.{
  Archive, Node, folder, file, other, socket, unreadable, Nodes, nil, node, visits, visits_in,
  tar_entry, tar_all, tar_gz,
}
use buildkit_multipartable.Archive.Lookup.{entries, or_empty}

unfoldable mutual
  -- no socket, and nothing that cannot be opened or listed
  pub is_readable : Node → Bool
  is_readable (folder ns) = are_readable ns
  is_readable (file none) = false
  is_readable (file (some c)) = true
  is_readable other = true
  is_readable socket = false
  is_readable unreadable = false

  pub are_readable : Nodes → Bool
  are_readable nil = true
  are_readable (node name n ns) = is_readable n && are_readable ns

IsMade : List Bytes × Node → Type 0
IsMade v = tar_entry v.0 v.1 ≡ some (or_empty (tar_entry v.0 v.1))

tar_all-IsMade : (vs : List (List Bytes × Node)) → All IsMade vs → tar_all vs ≡ some (entries vs)
unfolding tar_all IsMade
tar_all-IsMade [] a = refl
tar_all-IsMade (v ∷ vs) (h, a) =
    rw (tar_all, tar_all-IsMade vs a) (ap (λ o. o >>= λ e. some (e ++ entries vs)) h)

mutual
  unfolding visits is_readable tar_entry IsMade

  visits-IsMade : (n : Node) (path : List Bytes) → is_readable n ≡ true → All IsMade (visits path n)
  visits-IsMade (folder ns) [] h = (refl, visits_in-IsMade ns [] h)
  visits-IsMade (folder ns) (p ∷ ps) h = (refl, visits_in-IsMade ns (p ∷ ps) h)
  visits-IsMade (file none) path h = cc
  visits-IsMade (file (some c)) [] h = (refl, tt)
  visits-IsMade (file (some c)) (p ∷ ps) h = (refl, tt)
  visits-IsMade other [] h = (refl, tt)
  visits-IsMade other (p ∷ ps) h = (refl, tt)
  visits-IsMade socket path h = cc
  visits-IsMade unreadable path h = cc

  visits_in-IsMade :
      (ns : Nodes) (path : List Bytes) → are_readable ns ≡ true → All IsMade (visits_in path ns)
  visits_in-IsMade nil path h = tt
  visits_in-IsMade (node name n ns) path h =
      All-append IsMade (visits (path ++ name ∷ []) n) (visits_in path ns)
        (visits-IsMade n (path ++ name ∷ []) (ground (arith, h)))
        (visits_in-IsMade ns path (ground (arith, h)))

abbrev pub packed : Node → Archive
packed root = record { is_gzip = true; entries = entries (visits [] root); broken = false }

pub tar_gz-is_readable : (root : Node) → is_readable root ≡ true → tar_gz root ≡ some (packed root)
unfolding tar_gz
tar_gz-is_readable root h = rw (tar_all-IsMade (visits [] root) (visits-IsMade root [] h)) refl
