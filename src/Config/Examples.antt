-- ===== src/Config/Examples.antt =====
-- Runs of config.go.
use buildkit_multipartable.Base.{
  ◌≡◌, arith, refl, pos, negsuc, none, some, Option, ℤ, Bytes, [], codes, eqb, if◌then◌else◌,
}
use buildkit_multipartable.Config.{parse_int, magnitude, digits, load_from_env, override, default}

abbrev no_duration : Bytes → Option ℤ
no_duration v = none

abbrev environment : Bytes → Bytes
environment name = if eqb name (codes "DTBUILD_QUEUE_MAX") then codes "25" else []

negative : parse_int (codes "-42") ≡ some (negsuc 41)
unfolding parse_int magnitude digits
negative = refl

too_large : parse_int (codes "9223372036854775808") ≡ none
unfolding parse_int magnitude digits
too_large = refl

queue_of_25 : (load_from_env no_duration environment).queue_max_len ≡ pos 25
unfolding load_from_env override parse_int magnitude digits default
    buildkit_multipartable.Base.Text.eqb
queue_of_25 = refl
