-- ===== src/Archive/RoundTrip.antt =====
-- A folder packed by tarGz and unpacked by extractTarGz.
use mathlib.Core.List.{append_assoc}
use buildkit_multipartable.Base.{
  ◌≡◌, ◌≢◌, refl, ◌∙◌, ap, subst, sym, true, false, List, [], ◌∷◌, ◌++◌, Option, none, some, Bytes,
  eqb, eqb_ne, eqb_refl, arith, All, All-append, Bool-cases, inl, inr, if◌then◌else◌, read,
  read-write,
}
use buildkit_multipartable.Strings.{has_prefix, join, split}
use buildkit_multipartable.Paths.{slash, clean, join_path}
use buildkit_multipartable.Paths.Parts.{IsName, split-join}
use buildkit_multipartable.Paths.Rooted.{names-NoSlash}
use buildkit_multipartable.Paths.Relative.{join_nonempty, has_prefix_self}
use buildkit_multipartable.Paths.Under.{clean_under}
use buildkit_multipartable.Blobs.{Device, copied}
use buildkit_multipartable.Blobs.Keys.{IsFolder, eqb-prefix}
use buildkit_multipartable.Blobs.Refine.{IsHealthy}
use buildkit_multipartable.Archive.{
  Typeflag, type_dir, type_reg, type_other, Entry, Archive, Tree, is_inside, extract_at,
  extract_entry, extract_loop, extract_tar_gz, Node, folder, file, other, socket, unreadable, Nodes,
  nil, node, visits, visits_in, tar_entry, tar_gz, entry_of,
}
use buildkit_multipartable.Archive.Readable.{is_readable, packed, tar_gz-is_readable}
use buildkit_multipartable.Archive.Safe.{join_path_rooted, nonempty}
use buildkit_multipartable.Archive.Lookup.{
  find, IsTidy, AreTidy, entries, strip, strip-append, is_here, strip_iff, strip_self, hit, hit_in,
  or_before, hit-folder, hit_in-node, hit-unreadable, hit-other, hit-socket, hit-broken, hit_in-nil,
  entries-append,
}

eqb-parts :
    (p : Bytes) (ps : List Bytes) (q : Bytes) (qs : List Bytes)
    → All IsName (p ∷ ps)
    → All IsName (q ∷ qs)
    → eqb (join (p ∷ ps) slash) (join (q ∷ qs) slash) ≡ is_here (strip (p ∷ ps) (q ∷ qs))
eqb-parts p ps q qs a b = elim (Bool-cases (is_here (strip (p ∷ ps) (q ∷ qs)))) [
  | inl e ↦ rw e (
      subst (λ xs. eqb (join (p ∷ ps) slash) (join xs slash) ≡ true) (strip_iff (p ∷ ps) (q ∷ qs) e)
        (eqb_refl (join (p ∷ ps) slash)))
  | inr e ↦ rw e (
      eqb_ne (join (p ∷ ps) slash) (join (q ∷ qs) slash) (λ s. apart e (
        sym (split-join p ps (names-NoSlash (p ∷ ps) a))
        ∙ (ap (λ t. split t b'/') s ∙ split-join q qs (names-NoSlash (q ∷ qs) b)))))
]
  where
    apart : is_here (strip (p ∷ ps) (q ∷ qs)) ≡ false → (p ∷ ps) ≢ (q ∷ qs)
    apart e s =
        let t = subst (λ xs. is_here (strip (p ∷ ps) xs) ≡ true) s (strip_self (p ∷ ps)) in cc

file_hit :
    (s : Option (List Bytes)) (c : Bytes) (b : Option Bytes)
    → (if is_here s then some c else b) ≡ or_before (hit s (file (some c))) b
unfolding find
file_hit none c b = refl
file_hit (some []) c b = refl
file_hit (some (r ∷ rs)) c b = refl

module _ (dev : Device) (dest : Bytes) (good : IsHealthy dev)
    (rooted : has_prefix dest slash ≡ true) (is_folder : IsFolder dest) where
  abbrev under : List Bytes → Bytes
  under ps = clean dest ++ (b'/' ∷ join ps slash)

  join_path_names :
      (p : Bytes) (ps : List Bytes)
      → All IsName (p ∷ ps)
      → join_path dest (join (p ∷ ps) slash) ≡ under (p ∷ ps)
  unfolding join_path
  join_path_names p ps a =
      let (k, ks, f) = is_folder in
      rw (nonempty dest rooted, join_nonempty p ps a.0.0) (clean_under p ps a dest k ks f)

  is_inside_names :
      (p : Bytes) (ps : List Bytes) → All IsName (p ∷ ps) → is_inside dest (under (p ∷ ps)) ≡ true
  unfolding is_inside
  is_inside_names p ps a =
      let (_, same) = join_path_rooted dest (join (p ∷ ps) slash) rooted in
      let clean_same = subst (λ s. clean s ≡ s) (join_path_names p ps a) same in
      rw (clean_same, sym (append_assoc (clean dest) slash (join (p ∷ ps) slash)))
        (has_prefix_self (clean dest ++ slash) (join (p ∷ ps) slash))

  extract_names :
      (p : Bytes) (ps : List Bytes) (flag : Typeflag) (c : Bytes) (t : Tree)
      → All IsName (p ∷ ps)
      → extract_entry dev dest (entry_of flag (p ∷ ps) c) t
        ≡ extract_at dev (under (p ∷ ps)) (entry_of flag (p ∷ ps) c) t
  unfolding extract_entry
  extract_names p ps flag c t a =
      rw (extract_entry, join_path_names p ps a, is_inside_names p ps a) refl

  extract_entry-true : (e : Entry) (t : Tree) → (extract_entry dev dest e t).1 ≡ true
  unfolding extract_entry extract_at
  extract_entry-true e t = ground (arith, good.creates-true (join_path dest e.name), e.typeflag)

  abbrev unpack : List Entry → Tree → Tree
  unpack es t = (extract_loop dev dest es false t).0

  extract_loop-true : (es : List Entry) (t : Tree) → (extract_loop dev dest es false t).1 ≡ true
  unfolding extract_loop
  extract_loop-true [] t = refl
  extract_loop-true (e ∷ es) t =
      rw (extract_entry-true e t) (extract_loop-true es (extract_entry dev dest e t).0)

  unpack-cons :
      (e : Entry) (es : List Entry) (t : Tree)
      → unpack (e ∷ es) t ≡ unpack es (extract_entry dev dest e t).0
  unfolding extract_loop
  unpack-cons e es t = ground (arith, extract_entry-true e t)

  unpack-append : (es fs : List Entry) (t : Tree) → unpack (es ++ fs) t ≡ unpack fs (unpack es t)
  unfolding extract_loop
  unpack-append [] fs t = refl
  unpack-append (e ∷ es) fs t =
      unpack-cons e (es ++ fs) t
      ∙ (unpack-append es fs (extract_entry dev dest e t).0 ∙ rw (unpack-cons e es t) refl)

  module _ (q : Bytes) (qs : List Bytes) (key : All IsName (q ∷ qs)) where
    abbrev seen : Tree → Option Bytes
    seen t = read (under (q ∷ qs)) t.files

    eqb-under :
        (p : Bytes) (ps : List Bytes)
        → All IsName (p ∷ ps)
        → eqb (under (p ∷ ps)) (under (q ∷ qs)) ≡ is_here (strip (p ∷ ps) (q ∷ qs))
    eqb-under p ps a =
        eqb-prefix (clean dest) (b'/' ∷ join (p ∷ ps) slash) (b'/' ∷ join (q ∷ qs) slash)
        ∙ (eqb-prefix slash (join (p ∷ ps) slash) (join (q ∷ qs) slash) ∙ eqb-parts p ps q qs a key)

    seen-one :
        (p : Bytes) (ps : List Bytes) (flag : Typeflag) (c : Bytes) (t : Tree)
        → All IsName (p ∷ ps)
        → seen (unpack (entry_of flag (p ∷ ps) c ∷ []) t)
          ≡ seen (extract_at dev (under (p ∷ ps)) (entry_of flag (p ∷ ps) c) t).0
    unfolding extract_loop
    seen-one p ps flag c t a =
        rw (unpack-cons (entry_of flag (p ∷ ps) c) [] t, extract_names p ps flag c t a) refl

    seen-file :
        (p : Bytes) (ps : List Bytes) (c : Bytes) (t : Tree)
        → All IsName (p ∷ ps)
        → seen (unpack (entry_of type_reg (p ∷ ps) c ∷ []) t)
          ≡ or_before (hit (strip (p ∷ ps) (q ∷ qs)) (file (some c))) (seen t)
    unfolding extract_at copied
    seen-file p ps c t a =
        seen-one p ps type_reg c t a
        ∙ (rw
            (
              extract_at,
              good.creates-true (under (p ∷ ps)),
              good.takes-none (under (p ∷ ps)),
              read-write (under (q ∷ qs)) (under (p ∷ ps)) c t.files,
              eqb-under p ps a,
            )
            (file_hit (strip (p ∷ ps) (q ∷ qs)) c (seen t)))

    seen-plain :
        (p : Bytes) (ps : List Bytes) (flag : Typeflag) (t : Tree)
        → flag ≢ type_reg
        → All IsName (p ∷ ps)
        → seen (unpack (entry_of flag (p ∷ ps) [] ∷ []) t) ≡ seen t
    unfolding extract_at
    seen-plain p ps type_dir t f a = seen-one p ps type_dir [] t a
    seen-plain p ps type_reg t f a = absurd (f refl)
    seen-plain p ps type_other t f a = seen-one p ps type_other [] t a

    seen-unpack :
        (es fs : List Entry) (t : Tree)
        → seen (unpack (es ++ fs) t) ≡ seen (unpack fs (unpack es t))
    seen-unpack es fs t = ap seen (unpack-append es fs t)

    abbrev files_of : List Bytes → Node → Option Bytes
    files_of path n = hit (strip path (q ∷ qs)) n

    -- The files of a node, and what was there before.
    mutual
      unfolding visits find IsTidy tar_entry extract_loop strip

      seen-node :
          (n : Node) (path : List Bytes) (t : Tree)
          → IsTidy n
          → All IsName path
          → seen (unpack (entries (visits path n)) t) ≡ or_before (files_of path n) (seen t)
      seen-node (folder ns) [] t d a = seen-nodes ns [] t d a
      seen-node (folder ns) (p ∷ ps) t d a =
          seen-unpack (entry_of type_dir (p ∷ ps) [] ∷ []) (entries (visits_in (p ∷ ps) ns)) t
          ∙ (seen-nodes ns (p ∷ ps) (unpack (entry_of type_dir (p ∷ ps) [] ∷ []) t) d a
              ∙ rw (seen-plain p ps type_dir t (λ e. cc) a, hit-folder (strip (p ∷ ps) (q ∷ qs)) ns)
                  refl)
      seen-node (file c) [] t d a = refl
      seen-node (file none) (p ∷ ps) t d a = rw (hit-unreadable (strip (p ∷ ps) (q ∷ qs))) refl
      seen-node (file (some c)) (p ∷ ps) t d a = seen-file p ps c t a
      seen-node other [] t d a = refl
      seen-node other (p ∷ ps) t d a =
          seen-plain p ps type_other t (λ e. cc) a ∙ rw (hit-other (strip (p ∷ ps) (q ∷ qs))) refl
      seen-node socket [] t d a = refl
      seen-node socket (p ∷ ps) t d a = rw (hit-socket (strip (p ∷ ps) (q ∷ qs))) refl
      seen-node unreadable [] t d a = refl
      seen-node unreadable (p ∷ ps) t d a = rw (hit-broken (strip (p ∷ ps) (q ∷ qs))) refl

      seen-nodes :
          (ns : Nodes) (path : List Bytes) (t : Tree)
          → AreTidy ns
          → All IsName path
          → seen (unpack (entries (visits_in path ns)) t)
            ≡ or_before (hit_in (strip path (q ∷ qs)) ns) (seen t)
      seen-nodes nil path t d a = rw (hit_in-nil (strip path (q ∷ qs))) refl
      seen-nodes (node name n ns) path t (h, fresh, d, ds) a =
          let inner = path ++ name ∷ [] in
          let t' = unpack (entries (visits inner n)) t in
          let split_up : entries (visits inner n ++ visits_in path ns)
              ≡ entries (visits inner n) ++ entries (visits_in path ns) =
            entries-append (visits inner n) (visits_in path ns) in
          ap (λ es. seen (unpack es t)) split_up
          ∙ (seen-unpack (entries (visits inner n)) (entries (visits_in path ns)) t
              ∙ (seen-nodes ns path t' ds a
                  ∙ (ap (or_before (hit_in (strip path (q ∷ qs)) ns))
                        (seen-node n inner t d (All-append IsName path (name ∷ []) a (h, tt)))
                      ∙ rw (strip-append path name (q ∷ qs))
                          (hit_in-node (strip path (q ∷ qs)) name n ns (seen t) fresh))))

-- A folder without sockets, whose files can be opened, and whose names are names of files, each once in
-- its folder, is packed by tarGz; and on a device where no call fails, extractTarGz unpacks the archive
-- without an error into any absolute folder but the root: at each path below that folder there is then
-- the content of the file at this path in the packed folder, or, if there is none, what was there before.
pub extract_tar_gz-tar_gz :
    (dev : Device) (dest : Bytes) (root : Node) (t : Tree)
    → IsHealthy dev
    → has_prefix dest slash ≡ true
    → IsFolder dest
    → IsTidy root
    → is_readable root ≡ true
    → (a : Archive) × (tar_gz root ≡ some a)
      × ((extract_tar_gz dev dest a t).1 ≡ true)
      × ((p : Bytes) (ps : List Bytes)
          → All IsName (p ∷ ps)
          → read (clean dest ++ (b'/' ∷ join (p ∷ ps) slash)) (extract_tar_gz dev dest a t).0.files
            ≡ or_before
                (find (p ∷ ps) root)
                (read (clean dest ++ (b'/' ∷ join (p ∷ ps) slash)) t.files))
unfolding extract_tar_gz strip
extract_tar_gz-tar_gz dev dest root t good rooted wide tidy readable = (
  packed root,
  tar_gz-is_readable root readable,
  extract_loop-true dev dest good rooted wide (entries (visits [] root)) t,
  λ p ps key. seen-node dev dest good rooted wide p ps key root [] t tidy tt,
)
