-- ===== src/Buildkit/Outcome.antt =====
-- The outcome of Build.
use buildkit_multipartable.Base.{
  ℕ, ◌≡◌, refl, ◌∙◌, ap, sym, ◌↔◌, ◌⊎◌, subst, Bool, true, not, List, [], ◌∷◌, ◌++◌, map, Option,
  none, some, Bytes, eqb, arith, Bool-cases, Option-cases, inl, inr, Result, ok, err,
}
use buildkit_multipartable.Strings.{split, trim_right_of}
use buildkit_multipartable.Domain.{Rate}
use buildkit_multipartable.Buildkit.{
  RawVertex, VertexInfo, Tracker, Event, vertex, log, status, empty, find_vertex, get_vertex,
  mark_in, process, process_all, cache_hit_rate,
}
use buildkit_multipartable.Buildkit.Run.{
  BuildOptions, base_args, opt_of, buildctl_args, Stream, emit, start_vertex, on_vertex, emit_each,
  on_log, on_status, Item, plain, raw_vertex, raw_log, raw_status, on_item, read_stream, new_stream,
  Process, finish, build, num_of,
}
use buildkit_multipartable.Buildkit.Emitted.{AllValid, buildctl_args_correct}

-- what the items say of the vertices
unfoldable pub events_of : List Item → List Event
events_of [] = []
events_of (plain line ∷ is) = events_of is
events_of (raw_vertex raw ∷ is) = vertex raw ∷ events_of is
events_of (raw_log digest text ∷ is) = log digest ∷ events_of is
events_of (raw_status digest name completed ∷ is) =
    status digest (not (eqb completed [])) ∷ events_of is

mark_in-absent :
    (raw : RawVertex) (vs : List VertexInfo)
    → find_vertex raw.digest vs ≡ none
    → mark_in raw vs ≡ vs
unfolding mark_in find_vertex
mark_in-absent raw [] h = refl
mark_in-absent raw (v ∷ vs) h = ground (arith, h, mark_in-absent raw vs)

start_vertex-tracker :
    (raw : RawVertex) (v : VertexInfo) (s : Stream) → (start_vertex raw v s).tracker ≡ s.tracker
unfolding start_vertex emit
start_vertex-tracker raw v s = ground arith

on_vertex-tracker :
    (elapsed : Bytes → Bytes → Bytes) (raw : RawVertex) (s : Stream)
    → (on_vertex elapsed raw s).tracker ≡ process (vertex raw) s.tracker
unfolding on_vertex process
on_vertex-tracker elapsed raw s =
    let t = get_vertex raw.digest raw.name s.tracker in
    elim (Option-cases (find_vertex raw.digest t.vertices)) [
      | inl e ↦ rw (on_vertex, e, mark_in-absent raw t.vertices e) refl
      | inr (v, e) ↦ rw (on_vertex, e) refl
    ]

emit_each-tracker :
    (num : ℕ) (ls : List Bytes) (s : Stream) → (emit_each num ls s).tracker ≡ s.tracker
unfolding emit_each emit
emit_each-tracker num [] s = refl
emit_each-tracker num (l ∷ ls) s = emit_each-tracker num ls (emit _ s)

on_log-tracker :
    (digest : Bytes) (text : Option Bytes) (s : Stream)
    → (on_log digest text s).tracker ≡ process (log digest) s.tracker
unfolding on_log process
on_log-tracker digest none s = refl
on_log-tracker digest (some text) s =
    let t = get_vertex digest [] s.tracker in
    emit_each-tracker (num_of (find_vertex digest t.vertices)) (split (trim_right_of 10 text) 10)
      (record s { tracker = t })

on_status-tracker :
    (digest name completed : Bytes) (s : Stream)
    → (on_status digest name completed s).tracker
      ≡ process (status digest (not (eqb completed []))) s.tracker
unfolding on_status process emit
on_status-tracker digest name completed s = elim (Bool-cases (eqb completed [])) [
  | inl h ↦ rw h refl
  | inr h ↦ rw h refl
]

-- The stream keeps the vertices as the tracker alone does.
read_stream-tracker :
    (elapsed : Bytes → Bytes → Bytes) (items : List Item) (s : Stream)
    → (read_stream elapsed items s).tracker ≡ process_all (events_of items) s.tracker
unfolding read_stream events_of process_all on_item emit
read_stream-tracker elapsed [] s = refl
read_stream-tracker elapsed (plain line ∷ is) s =
    read_stream-tracker elapsed is (emit (line ++ 10 ∷ []) s)
read_stream-tracker elapsed (raw_vertex raw ∷ is) s =
    read_stream-tracker elapsed is (on_vertex elapsed raw s)
    ∙ ap (process_all (events_of is)) (on_vertex-tracker elapsed raw s)
read_stream-tracker elapsed (raw_log digest text ∷ is) s =
    read_stream-tracker elapsed is (on_log digest text s)
    ∙ ap (process_all (events_of is)) (on_log-tracker digest text s)
read_stream-tracker elapsed (raw_status digest name completed ∷ is) s =
    read_stream-tracker elapsed is (on_status digest name completed s)
    ∙ ap (process_all (events_of is)) (on_status-tracker digest name completed s)

abbrev pub dockerfile_path : BuildOptions → Bytes
dockerfile_path opts = opts.context_dir ++ (b'/' ∷ opts.dockerfile)

-- The ways in which Build ends without an error.
pub record IsBuilt (addr : Bytes) (exists : Bytes → Bool) (start : List Bytes → Process)
    (opts : BuildOptions) (rate : Rate) : Type 0 where
  pub found : exists (dockerfile_path opts) ≡ true
  pub valid : AllValid opts.build_args
  pub pipes : (start (base_args addr opts ++ map opt_of opts.build_args)).pipes ≡ true
  pub starts : (start (base_args addr opts ++ map opt_of opts.build_args)).starts ≡ true
  pub succeeds : (start (base_args addr opts ++ map opt_of opts.build_args)).succeeds ≡ true
  pub rated :
      rate
      ≡ cache_hit_rate
          (process_all
            (events_of (start (base_args addr opts ++ map opt_of opts.build_args)).items)
            empty).vertices

finish-ok :
    (p : Process) (s : Stream) (rate : Rate)
    → finish p s ≡ ok rate
    → (p.succeeds ≡ true) × (rate ≡ cache_hit_rate s.tracker.vertices)
unfolding finish
finish-ok p s rate h = ground (arith, h)

Result-cases :
    (r : Result Bytes (List Bytes))
    → ((args : List Bytes) × (r ≡ ok args)) ⊎ ((key : Bytes) × (r ≡ err key))
Result-cases (ok args) = inl (args, refl)
Result-cases (err key) = inr (key, refl)

module _ (elapsed : Bytes → Bytes → Bytes) (addr : Bytes) (exists : Bytes → Bool)
    (start : List Bytes → Process) (opts : BuildOptions) (rate : Rate) where
  ran :
      (args : List Bytes)
      → buildctl_args addr opts ≡ ok args
      → (build elapsed addr exists start opts).1 ≡ ok rate
      → (exists (dockerfile_path opts) ≡ true)
        × ((start args).pipes ≡ true)
        × ((start args).starts ≡ true)
        × (finish (start args) (read_stream elapsed (start args).items new_stream) ≡ ok rate)
  unfolding build
  ran args a h = ground (arith, a, h)

  refused :
      (key : Bytes)
      → buildctl_args addr opts ≡ err key
      → (build elapsed addr exists start opts).1 ≡ ok rate
      → ⊥
  unfolding build
  refused key a h = ground (arith, a, h)

  ran-IsBuilt :
      (args : List Bytes)
      → buildctl_args addr opts ≡ ok args
      → (build elapsed addr exists start opts).1 ≡ ok rate
      → IsBuilt addr exists start opts rate
  ran-IsBuilt args a h =
      let (valid, e) = (buildctl_args_correct addr opts args).0 a in
      let s = read_stream elapsed (start args).items new_stream in
      let (found, pipes, starts, done) = ran args a h in
      let (succeeds, rated) = finish-ok (start args) s rate done in
      subst
        (λ args.
          ((start args).pipes ≡ true)
          → ((start args).starts ≡ true)
          → ((start args).succeeds ≡ true)
          → (rate ≡ cache_hit_rate (process_all (events_of (start args).items) empty).vertices)
          → IsBuilt addr exists start opts rate)
        (sym e)
        (λ p q r t. record {
          found = found;
          valid = valid;
          pipes = p;
          starts = q;
          succeeds = r;
          rated = t;
        })
        pipes starts succeeds
        (rated
          ∙ ap (λ (t : Tracker). cache_hit_rate t.vertices)
              (read_stream-tracker elapsed (start args).items new_stream))

  IsBuilt-ran :
      IsBuilt addr exists start opts rate → (build elapsed addr exists start opts).1 ≡ ok rate
  unfolding build finish
  IsBuilt-ran b =
      let args = base_args addr opts ++ map opt_of opts.build_args in
      let a : buildctl_args addr opts ≡ ok args =
        (buildctl_args_correct addr opts args).1 (b.valid, refl) in
      rw
        (
          build,
          b.found,
          a,
          b.pipes,
          b.starts,
          finish,
          b.succeeds,
          read_stream-tracker elapsed (start args).items new_stream,
        )
        (ap (λ (r : Rate). ok r) (sym b.rated))

-- Build ends without an error exactly if the Dockerfile is there, the keys of the build arguments are
-- valid, and buildctl, started with the fixed arguments and one option for each build argument, succeeds;
-- its rate is then that of the vertices that buildctl's messages tell of.
pub build-IsBuilt :
    (elapsed : Bytes → Bytes → Bytes) (addr : Bytes) (exists : Bytes → Bool)
    (start : List Bytes → Process) (opts : BuildOptions) (rate : Rate)
    → ((build elapsed addr exists start opts).1 ≡ ok rate) ↔ IsBuilt addr exists start opts rate
build-IsBuilt elapsed addr exists start opts rate = (
  λ h. elim (Result-cases (buildctl_args addr opts)) [
    | inl (args, a) ↦ ran-IsBuilt elapsed addr exists start opts rate args a h
    | inr (key, a) ↦ absurd (refused elapsed addr exists start opts rate key a h)
  ],
  IsBuilt-ran elapsed addr exists start opts rate,
)
