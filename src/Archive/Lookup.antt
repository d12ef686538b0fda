-- ===== src/Archive/Lookup.antt =====
-- The files of a folder by their paths in it, and the entries that tarGz makes of them.
use mathlib.Core.List.{append_assoc}
use buildkit_multipartable.Base.{
  ◌≡◌, refl, ◌∙◌, ap, sym, Bool, true, false, ◌&&◌, not, List, [], ◌∷◌, ◌++◌, Option, none, some,
  Bytes, eqb, eqb_iff, arith, Bool-cases, inl, inr, if◌then◌else◌, ◌>>=◌, some_inj,
}
use buildkit_multipartable.Paths.Parts.{IsName}
use buildkit_multipartable.Archive.{
  Entry, Node, folder, file, other, socket, unreadable, Nodes, nil, node, tar_entry, tar_all,
}

unfoldable mutual
  -- the content of the file at a path
  pub find : List Bytes → Node → Option Bytes
  find [] (file c) = c
  find [] (folder ns) = none
  find (p ∷ ps) (folder ns) = find_in p ps ns
  find (p ∷ ps) (file c) = none
  find ps other = none
  find ps socket = none
  find ps unreadable = none

  pub find_in : Bytes → List Bytes → Nodes → Option Bytes
  find_in p ps nil = none
  find_in p ps (node name n ns) =
      let here = find ps n in let rest = find_in p ps ns in if eqb name p then here else rest

unfoldable pub absent : Bytes → Nodes → Bool
absent p nil = true
absent p (node name n ns) = not (eqb name p) && absent p ns

unfoldable mutual
  -- The names in a folder are names of files, each once.
  pub IsTidy : Node → Type 0
  IsTidy (folder ns) = AreTidy ns
  IsTidy (file c) = Unit
  IsTidy other = Unit
  IsTidy socket = Unit
  IsTidy unreadable = Unit

  pub AreTidy : Nodes → Type 0
  AreTidy nil = Unit
  AreTidy (node name n ns) = IsName name × (absent name ns ≡ true) × IsTidy n × AreTidy ns

pub find_in-absent :
    (name p : Bytes) (ps : List Bytes) (ns : Nodes)
    → absent name ns ≡ true
    → eqb name p ≡ true
    → find_in p ps ns ≡ none
unfolding find absent
find_in-absent name p ps nil a e = refl
find_in-absent name p ps (node other_name n ns) a e = ground (
  arith,
  a,
  e,
  eqb_iff name p,
  eqb_iff other_name p,
  eqb_iff other_name name,
  find_in-absent name p ps ns,
)

abbrev pub or_empty : Option (List Entry) → List Entry
or_empty none = []
or_empty (some es) = es

-- the entries that are made, errors left out
abbrev pub entries : List (List Bytes × Node) → List Entry
entries [] = []
entries (v ∷ vs) = or_empty (tar_entry v.0 v.1) ++ entries vs

pub tar_all-entries :
    (vs : List (List Bytes × Node)) (es : List Entry) → tar_all vs ≡ some es → es ≡ entries vs
unfolding tar_all
tar_all-entries [] es h = sym (some_inj h)
tar_all-entries (v ∷ vs) es h =
    go (tar_entry v.0 v.1) (tar_all vs) (λ fs m. tar_all-entries vs fs m) h
  where
    go :
        (o : Option (List Entry)) (more : Option (List Entry))
        → ((fs : List Entry) → more ≡ some fs → fs ≡ entries vs)
        → (o >>= λ e. more >>= λ fs. some (e ++ fs)) ≡ some es
        → es ≡ or_empty o ++ entries vs
    go none more ih h = cc
    go (some e) none ih h = cc
    go (some e) (some fs) ih h = sym (some_inj h) ∙ ap (λ xs. e ++ xs) (ih fs refl)

-- what is left of a path below another one
unfoldable pub strip : List Bytes → List Bytes → Option (List Bytes)
strip [] q = some q
strip (p ∷ ps) [] = none
strip (p ∷ ps) (q ∷ qs) = let rest = strip ps qs in if eqb p q then rest else none

abbrev pub next : Bytes → Option (List Bytes) → Option (List Bytes)
next name none = none
next name (some []) = none
next name (some (r ∷ rs)) = if eqb name r then some rs else none

pub strip-append :
    (path : List Bytes) (name : Bytes) (q : List Bytes)
    → strip (path ++ name ∷ []) q ≡ next name (strip path q)
unfolding strip
strip-append [] name [] = refl
strip-append [] name (q ∷ qs) = refl
strip-append (p ∷ ps) name [] = refl
strip-append (p ∷ ps) name (q ∷ qs) = ground (arith, strip-append ps name qs)

abbrev pub is_here : Option (List Bytes) → Bool
is_here none = false
is_here (some []) = true
is_here (some (r ∷ rs)) = false

pub strip_iff : (path q : List Bytes) → is_here (strip path q) ≡ true → path ≡ q
unfolding strip
strip_iff [] [] h = refl
strip_iff [] (q ∷ qs) h = cc
strip_iff (p ∷ ps) [] h = cc
strip_iff (p ∷ ps) (q ∷ qs) h = ground (arith, h, strip_iff ps qs, eqb_iff p q)

pub strip_self : (path : List Bytes) → is_here (strip path path) ≡ true
unfolding strip
strip_self [] = refl
strip_self (p ∷ ps) = ground (arith, strip_self ps, eqb_iff p p)

abbrev pub hit : Option (List Bytes) → Node → Option Bytes
hit none n = none
hit (some r) n = find r n

abbrev pub hit_in : Option (List Bytes) → Nodes → Option Bytes
hit_in none ns = none
hit_in (some []) ns = none
hit_in (some (r ∷ rs)) ns = find_in r rs ns

abbrev pub or_before : Option Bytes → Option Bytes → Option Bytes
or_before none b = b
or_before (some c) b = some c

pub hit-folder : (s : Option (List Bytes)) (ns : Nodes) → hit s (folder ns) ≡ hit_in s ns
unfolding find
hit-folder none ns = refl
hit-folder (some []) ns = refl
hit-folder (some (r ∷ rs)) ns = refl

-- The first node with a name is the only one.
pub hit_in-node :
    (s : Option (List Bytes)) (name : Bytes) (n : Node) (ns : Nodes) (b : Option Bytes)
    → absent name ns ≡ true
    → or_before (hit_in s ns) (or_before (hit (next name s) n) b)
      ≡ or_before (hit_in s (node name n ns)) b
unfolding find
hit_in-node none name n ns b a = refl
hit_in-node (some []) name n ns b a = refl
hit_in-node (some (r ∷ rs)) name n ns b a = elim (Bool-cases (eqb name r)) [
  | inl e ↦ rw (e, find_in-absent name r rs ns a e) refl
  | inr e ↦ rw e refl
]

pub hit-unreadable : (s : Option (List Bytes)) → hit s (file none) ≡ none
unfolding find
hit-unreadable none = refl
hit-unreadable (some []) = refl
hit-unreadable (some (r ∷ rs)) = refl

pub hit-other : (s : Option (List Bytes)) → hit s other ≡ none
unfolding find
hit-other none = refl
hit-other (some []) = refl
hit-other (some (r ∷ rs)) = refl

pub hit-socket : (s : Option (List Bytes)) → hit s socket ≡ none
unfolding find
hit-socket none = refl
hit-socket (some []) = refl
hit-socket (some (r ∷ rs)) = refl

pub hit-broken : (s : Option (List Bytes)) → hit s unreadable ≡ none
unfolding find
hit-broken none = refl
hit-broken (some []) = refl
hit-broken (some (r ∷ rs)) = refl

pub hit_in-nil : (s : Option (List Bytes)) → hit_in s nil ≡ none
unfolding find
hit_in-nil none = refl
hit_in-nil (some []) = refl
hit_in-nil (some (r ∷ rs)) = refl

pub entries-append :
    (xs ys : List (List Bytes × Node)) → entries (xs ++ ys) ≡ entries xs ++ entries ys
entries-append [] ys = refl
entries-append (x ∷ xs) ys =
    ap (λ es. or_empty (tar_entry x.0 x.1) ++ es) (entries-append xs ys)
    ∙ sym (append_assoc (or_empty (tar_entry x.0 x.1)) (entries xs) (entries ys))
