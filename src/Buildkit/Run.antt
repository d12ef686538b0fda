-- ===== src/Buildkit/Run.antt =====
-- server/internal/buildkit/client.go: Build, with the lines that it emits for the log. The map of build
-- arguments is a list in the order in which the loop meets them. The decoding of JSON and base64 is left
-- out, and a duration is a parameter: the text for two times, empty if one of them does not parse.
use buildkit_multipartable.Base.{
  ℕ, ◌-◌, ◌*◌, Bool, not, ◌&&◌, List, [], ◌∷◌, ◌++◌, Option, none, some, Bytes, codes, eqb, length,
  drop, ltb, if◌then◌else◌, Result, ok, err, Files, read, write,
}
use buildkit_multipartable.Strings.{decimal, split, trim_right_of}
use buildkit_multipartable.Domain.{Rate}
use buildkit_multipartable.Buildkit.{
  RawVertex, VertexInfo, Tracker, empty, find_vertex, get_vertex, mark_in, cache_hit_rate,
  is_valid_build_arg_key,
}

pub record BuildOptions : Type 0 where
  pub context_dir : Bytes
  pub dockerfile : Bytes
  pub output_tag : Bytes
  pub cache_from : Bytes
  pub cache_to : Bytes
  pub build_args : List (Bytes × Bytes)

-- Build: the arguments before those of the build
unfoldable pub base_args : Bytes → BuildOptions → List Bytes
base_args addr opts =
    ((codes "--addr=" ++ addr)
      ∷ codes "build"
      ∷ codes "--frontend=dockerfile.v0"
      ∷ (codes "--local=context=" ++ opts.context_dir)
      ∷ (codes "--local=dockerfile=" ++ opts.context_dir)
      ∷ (codes "--opt=filename=" ++ opts.dockerfile)
      ∷ codes "--progress=rawjson"
      ∷ [])
    ++ ((if eqb opts.output_tag []
          then []
          else (codes "--output=type=image,name=" ++ (opts.output_tag ++ codes ",push=true")) ∷ [])
        ++ ((if eqb opts.cache_from []
              then []
              else (codes "--import-cache=type=registry,ref=" ++ opts.cache_from) ∷ [])
            ++ (if eqb opts.cache_to []
                then []
                else (codes "--export-cache=type=registry,ref="
                    ++ (opts.cache_to ++ codes ",mode=max"))
                  ∷ [])))

abbrev pub opt_of : Bytes × Bytes → Bytes
opt_of kv = codes "--opt=build-arg:" ++ (kv.0 ++ (b'=' ∷ kv.1))

-- Build: the loop over the build arguments, with the key that is refused
unfoldable pub add_build_args : List Bytes → List (Bytes × Bytes) → Result Bytes (List Bytes)
add_build_args args [] = ok args
add_build_args args (kv ∷ kvs) =
    let rest = add_build_args (args ++ opt_of kv ∷ []) kvs in
    if not (is_valid_build_arg_key kv.0) then err kv.0 else rest

-- Build: the arguments of buildctl
unfoldable pub buildctl_args : Bytes → BuildOptions → Result Bytes (List Bytes)
buildctl_args addr opts = add_build_args (base_args addr opts) opts.build_args

-- The state of the goroutine that reads the progress: the vertices, the start of those that have one, the
-- buffer, and the lines that onLog was called with.
pub record Stream : Type 0 where
  pub tracker : Tracker
  pub starts : Files
  pub log_buf : Bytes
  pub lines : List Bytes

abbrev pub max_log_bytes : ℕ
max_log_bytes = 10 * 1024 * 1024

-- emit
unfoldable pub emit : Bytes → Stream → Stream
emit line s = record s {
  log_buf = if ltb (length s.log_buf) max_log_bytes then s.log_buf ++ line else s.log_buf;
  lines = s.lines ++ line ∷ [];
}

abbrev pub numbered : ℕ → Bytes → Bytes
numbered num text = b'#' ∷ (decimal num ++ (b' ' ∷ (text ++ 10 ∷ [])))

abbrev pub start_of : Option Bytes → Bytes
start_of none = []
start_of (some t) = t

-- a vertex of a message, once it is in the map
unfoldable pub start_vertex : RawVertex → VertexInfo → Stream → Stream
unfolding emit
start_vertex raw v s =
    if not (eqb raw.started []) && not v.started
    then emit (numbered v.num v.name) (record s { starts = write raw.digest raw.started s.starts })
    else s

unfoldable pub complete_vertex : (Bytes → Bytes → Bytes) → RawVertex → VertexInfo → Stream → Stream
unfolding emit
complete_vertex elapsed raw v s =
    if not (eqb raw.completed []) && not v.completed
    then emit (10 ∷ []) (
        emit
          (if raw.cached
            then numbered v.num (codes "CACHED")
            else numbered v.num
                (codes "DONE" ++ elapsed (start_of (read raw.digest s.starts)) raw.completed))
          s)
    else s

unfoldable pub on_vertex : (Bytes → Bytes → Bytes) → RawVertex → Stream → Stream
unfolding start_vertex complete_vertex
on_vertex elapsed raw s =
    let t = get_vertex raw.digest raw.name s.tracker in
    elim (find_vertex raw.digest t.vertices) [
      | none ↦ record s { tracker = t }
      | some v ↦
          let s' = complete_vertex elapsed raw v (start_vertex raw v s) in
          record s' { tracker = record t { vertices = mark_in raw t.vertices } }
    ]

unfoldable pub emit_each : ℕ → List Bytes → Stream → Stream
emit_each num [] s = s
emit_each num (l ∷ ls) s = emit_each num ls (emit (numbered num l) s)

-- the number of a vertex in the map
abbrev pub num_of : Option VertexInfo → ℕ
num_of none = 0
num_of (some v) = v.num

-- a log, with the decoded text, if it decodes
unfoldable pub on_log : Bytes → Option Bytes → Stream → Stream
unfolding emit_each
on_log digest text s =
    let t = get_vertex digest [] s.tracker in
    let s' = record s { tracker = t } in
    elim text [
      | none ↦ s'
      | some text ↦
          emit_each (num_of (find_vertex digest t.vertices)) (split (trim_right_of 10 text) 10) s'
    ]

-- a status
unfoldable pub on_status : Bytes → Bytes → Bytes → Stream → Stream
on_status digest name completed s =
    let t = get_vertex digest [] s.tracker in
    if eqb completed []
    then s
    else emit (numbered (num_of (find_vertex digest t.vertices)) (name ++ codes " done"))
        (record s { tracker = t })

-- a part of a message, in the order of the three loops; `plain` is a line that is not JSON
pub data Item : Type 0 where
  plain : Bytes → Item
  raw_vertex : RawVertex → Item
  raw_log : Bytes → Option Bytes → Item
  raw_status : Bytes → Bytes → Bytes → Item

unfoldable pub on_item : (Bytes → Bytes → Bytes) → Item → Stream → Stream
unfolding on_vertex on_log on_status emit
on_item elapsed (plain line) s = emit (line ++ 10 ∷ []) s
on_item elapsed (raw_vertex raw) s = on_vertex elapsed raw s
on_item elapsed (raw_log digest text) s = on_log digest text s
on_item elapsed (raw_status digest name completed) s = on_status digest name completed s

unfoldable pub read_stream : (Bytes → Bytes → Bytes) → List Item → Stream → Stream
unfolding on_item
read_stream elapsed [] s = s
read_stream elapsed (i ∷ is) s = read_stream elapsed is (on_item elapsed i s)

abbrev pub new_stream : Stream
new_stream = record { tracker = empty; starts = []; log_buf = []; lines = [] }

-- the last 4096 bytes
unfoldable pub error_output : Bytes → Bytes
error_output s = if ltb 4096 (length s) then drop (length s - 4096) s else s

pub data BuildError : Type 0 where
  no_dockerfile : Bytes → BuildError
  invalid_key : Bytes → BuildError
  no_pipe no_start interrupted : BuildError
  buildctl_failed : Bytes → BuildError

-- What a run of buildctl does: whether the pipe and the process come about, what is read of its progress,
-- and how it ends; `is_done` says whether the context is done after a failure.
pub record Process : Type 0 where
  pub pipes : Bool
  pub starts : Bool
  pub items : List Item
  pub succeeds : Bool
  pub is_done : Bool

unfoldable pub finish : Process → Stream → Result BuildError Rate
unfolding error_output
finish p s =
    if p.succeeds
    then ok (cache_hit_rate s.tracker.vertices)
    else if p.is_done
    then err interrupted
    else err (buildctl_failed (error_output s.log_buf))

-- Build, with the lines that onLog gets: whether the Dockerfile exists, and the process for some arguments
unfoldable pub build :
    (Bytes → Bytes → Bytes)
    → Bytes
    → (Bytes → Bool)
    → (List Bytes → Process)
    → BuildOptions
    → List Bytes × Result BuildError Rate
unfolding buildctl_args
build elapsed addr exists start opts =
    let path = opts.context_dir ++ (b'/' ∷ opts.dockerfile) in
    if not (exists path) then ([], err (no_dockerfile path)) else elim (buildctl_args addr opts) [
      | err key ↦ ([], err (invalid_key key))
      | ok args ↦
          let p = start args in
          if not p.pipes
          then ([], err no_pipe)
          else if not p.starts
          then ([], err no_start)
          else let s = read_stream elapsed p.items new_stream in (s.lines, finish p s)
    ]
