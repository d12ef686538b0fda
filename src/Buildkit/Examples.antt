-- ===== src/Buildkit/Examples.antt =====
-- Runs of client.go.
use buildkit_multipartable.Base.{◌≡◌, refl, pos, true, false, List, [], ◌∷◌, Bytes, codes, some}
use buildkit_multipartable.Strings.{index, has_prefix, trim_space, split, fields}
use buildkit_multipartable.Buildkit.{
  RawVertex, VertexInfo, Tracker, empty, find_vertex, get_vertex, mark, mark_in, vertex, log,
  process, process_all, is_user_step, is_valid_build_arg_key, all_key_chars, all_digits,
  last_is_step, is_step_token, cache_hit_rate,
}
use buildkit_multipartable.Buildkit.Vertices.{IsPercentage, cache_hit_rate-IsPercentage}
use buildkit_multipartable.Buildkit.Settled.{Keeps, process_all-Keeps}

multi_stage : is_user_step (codes "[builder 2/5] RUN make") ≡ true
unfolding is_user_step buildkit_multipartable.Buildkit.is_user_step_at index has_prefix trim_space
    split fields all_digits last_is_step is_step_token buildkit_multipartable.Base.Text.eqb
multi_stage = refl

from_step : is_user_step (codes "[1/3] FROM alpine") ≡ false
unfolding is_user_step buildkit_multipartable.Buildkit.is_user_step_at index has_prefix trim_space
    split fields all_digits last_is_step is_step_token buildkit_multipartable.Base.Text.eqb
from_step = refl

internal_step : is_user_step (codes "[internal] load build context") ≡ false
unfolding is_user_step buildkit_multipartable.Buildkit.is_user_step_at index has_prefix trim_space
    split fields all_digits last_is_step is_step_token buildkit_multipartable.Base.Text.eqb
internal_step = refl

bad_key : is_valid_build_arg_key (codes "A=B") ≡ false
unfolding is_valid_build_arg_key all_key_chars buildkit_multipartable.Base.Text.eqb
bad_key = refl

abbrev cached : RawVertex
cached = record {
  digest = codes "d1";
  name = codes "[2/2] RUN x";
  started = codes "t";
  completed = codes "t";
  cached = true;
}

abbrev again : RawVertex
again = record cached { cached = false }

abbrev done : VertexInfo
done = record {
  digest = codes "d1";
  num = 1;
  name = codes "[2/2] RUN x";
  started = true;
  completed = true;
  cached = true;
}

abbrev tracked : Tracker
tracked = record { vertices = done ∷ []; next_num = 2 }

first_completion : process_all (vertex cached ∷ vertex again ∷ []) empty ≡ tracked
unfolding process_all process get_vertex find_vertex mark mark_in
    buildkit_multipartable.Base.Text.eqb
first_completion = refl

process_all-Keeps_example : Keeps (codes "d1") done (process_all (vertex again ∷ []) tracked)
unfolding find_vertex buildkit_multipartable.Base.Text.eqb
process_all-Keeps_example =
    process_all-Keeps (vertex again ∷ []) (codes "d1") done tracked refl refl

cache_hit_rate-IsPercentage_example : IsPercentage (cache_hit_rate (done ∷ []))
cache_hit_rate-IsPercentage_example = cache_hit_rate-IsPercentage (done ∷ [])
