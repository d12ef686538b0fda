-- ===== src/Buildkit/Settled.antt =====
-- A vertex that completed, over the messages that follow.
use buildkit_multipartable.Base.{
  ◌≡◌, refl, ◌∙◌, true, false, List, [], ◌∷◌, ◌++◌, some, Bytes, eqb, eqb_iff, arith, Bool-cases,
  Option-cases, inl, inr, if◌then◌else◌,
}
use buildkit_multipartable.Buildkit.{
  RawVertex, VertexInfo, Tracker, find_vertex, get_vertex, mark, mark_in, Event, vertex, log,
  status, process, process_all,
}

-- The vertex stays completed, with the same number, name and cache flag.
pub record IsSettled (v v' : VertexInfo) : Type 0 where
  pub completed : v'.completed ≡ true
  pub cached : v'.cached ≡ v.cached
  pub num : v'.num ≡ v.num
  pub name : v'.name ≡ v.name

abbrev pub Keeps : Bytes → VertexInfo → Tracker → Type 0
Keeps digest v t = (v' : VertexInfo) × (find_vertex digest t.vertices ≡ some v') × IsSettled v v'

mark-digest : (raw : RawVertex) (v : VertexInfo) → (mark raw v).digest ≡ v.digest
unfolding mark
mark-digest raw v = ground arith

mark-IsSettled : (raw : RawVertex) (v w : VertexInfo) → IsSettled v w → IsSettled v (mark raw w)
unfolding mark
mark-IsSettled raw v w h = record {
  completed = ground (arith, h.completed);
  cached = ground (arith, h.completed, h.cached);
  num = ground (arith, h.num);
  name = ground (arith, h.name);
}

find_vertex-append :
    (digest : Bytes) (vs : List VertexInfo) (w v : VertexInfo)
    → find_vertex digest vs ≡ some v
    → find_vertex digest (vs ++ w ∷ []) ≡ some v
unfolding find_vertex
find_vertex-append digest [] w v e = cc
find_vertex-append digest (x ∷ vs) w v e = ground (arith, find_vertex-append digest vs w v)

find_vertex-mark_in :
    (raw : RawVertex) (digest : Bytes) (vs : List VertexInfo) (v : VertexInfo)
    → find_vertex digest vs ≡ some v
    → find_vertex digest (mark_in raw vs) ≡ some (if eqb digest raw.digest then mark raw v else v)
unfolding find_vertex mark_in
find_vertex-mark_in raw digest [] v e = cc
find_vertex-mark_in raw digest (x ∷ vs) v e = ground (
  arith,
  mark-digest raw x,
  eqb_iff x.digest digest,
  eqb_iff x.digest raw.digest,
  eqb_iff digest raw.digest,
  find_vertex-mark_in raw digest vs v,
)

get_vertex-Keeps :
    (key name digest : Bytes) (v : VertexInfo) (t : Tracker)
    → Keeps digest v t
    → Keeps digest v (get_vertex key name t)
unfolding get_vertex
get_vertex-Keeps key name digest v t (w, e, h) = elim (Option-cases (find_vertex key t.vertices)) [
  | inr (x, f) ↦ rw (f, get_vertex) (w, e, h)
  | inl f ↦ rw (f, get_vertex) (w, find_vertex-append digest t.vertices _ w e, h)
]

process-Keeps :
    (event : Event) (digest : Bytes) (v : VertexInfo) (t : Tracker)
    → Keeps digest v t
    → Keeps digest v (process event t)
unfolding process
process-Keeps (vertex raw) digest v t k =
    let (w, e, h) = get_vertex-Keeps raw.digest raw.name digest v t k in
    let found = find_vertex-mark_in raw digest _ w e in
    elim (Bool-cases (eqb digest raw.digest)) [
      | inl same ↦ (mark raw w, found ∙ (rw same), mark-IsSettled raw v w h)
      | inr other ↦ (w, found ∙ (rw other), h)
    ]
process-Keeps (log key) digest v t k = get_vertex-Keeps key [] digest v t k
process-Keeps (status key true) digest v t k = get_vertex-Keeps key [] digest v t k
process-Keeps (status key false) digest v t k = k

each_message :
    (events : List Event) (digest : Bytes) (v : VertexInfo) (t : Tracker)
    → Keeps digest v t
    → Keeps digest v (process_all events t)
unfolding process_all
each_message [] digest v t k = k
each_message (e ∷ es) digest v t k =
    each_message es digest v (process e t) (process-Keeps e digest v t k)

-- The first completion of a vertex decides: whatever messages follow, it stays completed, with the same
-- number, name and cache flag.
pub process_all-Keeps :
    (events : List Event) (digest : Bytes) (v : VertexInfo) (t : Tracker)
    → find_vertex digest t.vertices ≡ some v
    → v.completed ≡ true
    → Keeps digest v (process_all events t)
process_all-Keeps events digest v t e h =
    each_message events digest v t
      (v, e, record { completed = h; cached = refl; num = refl; name = refl })
