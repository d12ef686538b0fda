-- ===== src/Buildkit/Runs.antt =====
-- Runs of Build.
use buildkit_multipartable.Base.{
  ◌≡◌, refl, ◌↔◌, pos, true, false, List, [], ◌∷◌, ◌++◌, Option, none, some, Bytes, codes, ok, err,
  read, write, arith,
}
use buildkit_multipartable.Domain.{Rate}
use buildkit_multipartable.Strings.{split, trim_right_of, decimal, decimal_loop}
use buildkit_multipartable.Buildkit.{RawVertex, find_vertex, get_vertex, mark, mark_in}
use buildkit_multipartable.Buildkit.Run.{
  BuildOptions, emit, start_vertex, complete_vertex, on_vertex, emit_each, on_log, Item, raw_vertex,
  raw_log, on_item, read_stream, new_stream, Process, build,
}
use buildkit_multipartable.Buildkit.Emitted.{IsKept, read_stream-IsKept}
use buildkit_multipartable.Buildkit.Outcome.{IsBuilt, build-IsBuilt}

abbrev opts : BuildOptions
opts = record {
  context_dir = codes "/w";
  dockerfile = codes "Dockerfile";
  output_tag = codes "app:1";
  cache_from = [];
  cache_to = [];
  build_args = (codes "K", codes "v") ∷ [];
}

abbrev cached : RawVertex
cached = record {
  digest = codes "d1";
  name = codes "[2/2] RUN x";
  started = codes "t";
  completed = codes "t";
  cached = true;
}

abbrev elapsed : Bytes → Bytes → Bytes
elapsed started completed = codes " 0.1s"

abbrev items : List Item
items = raw_vertex cached ∷ raw_log (codes "d1") (some (codes "hi")) ∷ []

log_lines :
    (read_stream elapsed items new_stream).log_buf ≡ codes "#1 [2/2] RUN x\n#1 CACHED\n\n#1 hi\n"
unfolding read_stream on_item on_vertex start_vertex complete_vertex on_log emit_each emit
    get_vertex find_vertex mark mark_in split trim_right_of decimal decimal_loop read write
    buildkit_multipartable.Base.Text.eqb
log_lines = refl

abbrev process_of : List Bytes → Process
process_of args = record {
  pipes = true;
  starts = true;
  items = items;
  succeeds = true;
  is_done = false;
}

abbrev all_cached : Rate
all_cached = record { num = pos 100; den = 1 }

build-IsBuilt_example :
    ((build elapsed (codes "tcp://b") (λ path. true) process_of opts).1 ≡ ok all_cached)
    ↔ IsBuilt (codes "tcp://b") (λ path. true) process_of opts all_cached
build-IsBuilt_example =
    build-IsBuilt elapsed (codes "tcp://b") (λ path. true) process_of opts all_cached

read_stream-IsKept_example : IsKept (read_stream elapsed items new_stream)
read_stream-IsKept_example =
    read_stream-IsKept elapsed items new_stream
      (record { n = 0; bounded = omega arith; first = refl; full = λ few. absurd (omega arith) })
