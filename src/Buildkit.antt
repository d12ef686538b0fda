-- ===== src/Buildkit.antt =====
-- server/internal/buildkit/client.go: the vertices of a build's progress messages, and the checks on
-- names. The lines that are emitted for the log are not modelled.
pub mod Vertices
pub mod Settled
pub mod Run
pub mod Emitted
pub mod Outcome
mod Examples
mod Runs
use buildkit_multipartable.Base.{
  ℕ, zero, suc, ◌+◌, ◌-◌, ◌*◌, ℤ, pos, negsuc, Bool, true, false, not, ◌&&◌, ◌||◌, List, [], ◌∷◌,
  ◌++◌, Option, none, some, Bytes, codes, eqb, length, take, drop, leb, ltb, ◌==◌, if◌then◌else◌,
}
use buildkit_multipartable.Strings.{index, has_prefix, trim_space, split, fields}
use buildkit_multipartable.Config.{is_digit}
use buildkit_multipartable.Domain.{Rate}

-- isValidBuildArgKey: a character that is allowed
abbrev pub is_key_char : ℕ → Bool
is_key_char c =
    (leb b'a' c && leb c b'z')
    || (leb b'A' c && leb c b'Z')
    || (leb b'0' c && leb c b'9')
    || (c == b'_')
    || (c == b'-')
    || (c == b'.')

unfoldable pub all_key_chars : Bytes → Bool
all_key_chars [] = true
all_key_chars (c ∷ s) = is_key_char c && all_key_chars s

unfoldable pub is_valid_build_arg_key : Bytes → Bool
unfolding all_key_chars
is_valid_build_arg_key key = not (eqb key []) && all_key_chars key

unfoldable pub all_digits : Bytes → Bool
all_digits [] = true
all_digits (c ∷ s) = is_digit c && all_digits s

abbrev pub is_number : Bytes → Bool
is_number p = not (eqb p []) && all_digits p

-- the token "M/N"
unfoldable pub is_step_token : List Bytes → Bool
is_step_token (m ∷ n ∷ []) = is_number m && is_number n
is_step_token _ = false

-- the last field
unfoldable pub last_is_step : List Bytes → Bool
last_is_step [] = false
last_is_step (f ∷ []) = is_step_token (split f b'/')
last_is_step (f ∷ g ∷ fs) = last_is_step (g ∷ fs)

-- isUserStep, once both brackets are found
unfoldable pub is_user_step_at : Bytes → ℕ → ℕ → Bool
unfolding last_is_step
is_user_step_at name start end =
    if leb end start
    then false
    else last_is_step (fields (take (end - (start + 1)) (drop (start + 1) name)))
      && not (has_prefix (trim_space (drop (end + 1) name)) (codes "FROM "))

unfoldable pub is_user_step : Bytes → Bool
is_user_step name = elim (index name (codes "[")) [
  | none ↦ false
  | some start ↦ elim (index name (codes "]")) [
    | none ↦ false
    | some end ↦ is_user_step_at name start end
  ]
]

-- rawVertex
pub record RawVertex : Type 0 where
  pub digest : Bytes
  pub name : Bytes
  pub started : Bytes
  pub completed : Bytes
  pub cached : Bool

-- vertexInfo, with its key in the map
pub record VertexInfo : Type 0 where
  pub digest : Bytes
  pub num : ℕ
  pub name : Bytes
  pub started : Bool
  pub completed : Bool
  pub cached : Bool

-- the map `vertices`, in the order of the numbers, and `nextNum`
pub record Tracker : Type 0 where
  pub vertices : List VertexInfo
  pub next_num : ℕ

abbrev pub empty : Tracker
empty = record { vertices = []; next_num = 1 }

unfoldable pub find_vertex : Bytes → List VertexInfo → Option VertexInfo
find_vertex digest [] = none
find_vertex digest (v ∷ vs) = if eqb v.digest digest then some v else find_vertex digest vs

-- getVertex
unfoldable pub get_vertex : Bytes → Bytes → Tracker → Tracker
unfolding find_vertex
get_vertex digest name t = elim (find_vertex digest t.vertices) [
  | some v ↦ t
  | none ↦ record {
    vertices =
        t.vertices
        ++ record {
          digest = digest;
          num = t.next_num;
          name = name;
          started = false;
          completed = false;
          cached = false;
        }
          ∷ [];
    next_num = t.next_num + 1;
  }
]

-- what a message says of a vertex
unfoldable pub mark : RawVertex → VertexInfo → VertexInfo
mark raw v =
    let v' = if not (eqb raw.started []) && not v.started then record v { started = true } else v in
    if not (eqb raw.completed []) && not v'.completed
    then record v' { completed = true; cached = raw.cached }
    else v'

unfoldable pub mark_in : RawVertex → List VertexInfo → List VertexInfo
unfolding mark
mark_in raw [] = []
mark_in raw (v ∷ vs) = if eqb v.digest raw.digest then mark raw v ∷ vs else v ∷ mark_in raw vs

-- the parts of a message: a vertex, a log, or a status
pub data Event : Type 0 where
  vertex : RawVertex → Event
  log : Bytes → Event
  status : Bytes → Bool → Event

unfoldable pub process : Event → Tracker → Tracker
unfolding get_vertex mark_in
process (vertex raw) t =
    let t' = get_vertex raw.digest raw.name t in record t' { vertices = mark_in raw t'.vertices }
process (log digest) t = get_vertex digest [] t
process (status digest is_completed) t = if is_completed then get_vertex digest [] t else t

unfoldable pub process_all : List Event → Tracker → Tracker
process_all [] t = t
process_all (e ∷ es) t = process_all es (process e t)

-- hits and total
unfoldable pub count_steps : List VertexInfo → ℕ × ℕ
count_steps [] = (0, 0)
count_steps (v ∷ vs) =
    let (hits, total) = count_steps vs in
    if not v.completed || not (is_user_step v.name)
    then (hits, total)
    else (if v.cached then hits + 1 else hits, total + 1)

-- CacheHitRate: -1, or hits / total * 100
unfoldable pub cache_hit_rate : List VertexInfo → Rate
cache_hit_rate vs =
    let (hits, total) = count_steps vs in
    if ltb 0 total
    then record { num = pos (hits * 100); den = total }
    else record { num = negsuc 0; den = 1 }
