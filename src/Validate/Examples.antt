-- ===== src/Validate/Examples.antt =====
-- Runs of the checks before a build.
use buildkit_multipartable.Base.{
  ℕ, ◌+◌, ◌≡◌, refl, true, false, [], ◌∷◌, Bytes, codes, ◌==◌, if◌then◌else◌, length, List,
}
use buildkit_multipartable.Strings.{
  has_prefix, index, last_index, contains, count, split, trim_space, to_upper,
}
use buildkit_multipartable.Validate.{
  BuildInput, BulkEntry, valid, single, bulk, validate_image_ref, after_platform, before_as,
  validate_from, scan_lines, validate_dockerfile, any_from, has_from, validate_tag, scan_entries,
  add, invalid_ref,
}

abbrev two_stages : BuildInput
two_stages = record {
  dockerfile = codes "from --platform=linux golang:1.21 as builder\nRUN go\nFROM alpine\n";
  image_tag = codes "reg:5000/app:1";
}

abbrev three_colons : BuildInput
three_colons = record two_stages { dockerfile = codes "FROM a:b:c:d\n" }

two_stages_valid : valid (single two_stages) ≡ true
unfolding single has_prefix index last_index contains count split trim_space to_upper
    validate_image_ref after_platform before_as validate_from scan_lines validate_dockerfile
    validate_tag buildkit_multipartable.Base.Text.eqb
two_stages_valid = refl

three_colons_valid : valid (single three_colons) ≡ false
unfolding single has_prefix index last_index contains count split trim_space to_upper
    validate_image_ref after_platform before_as validate_from scan_lines validate_dockerfile
    validate_tag add invalid_ref buildkit_multipartable.Base.Text.eqb
three_colons_valid = refl

abbrev entries : List BulkEntry
entries =
    record { path = codes "a"; name = codes "Dockerfile"; content = codes "RUN x"; tag = [] }
    ∷ record { path = codes "b"; name = codes "Dockerfile"; content = codes "FROM x"; tag = [] }
    ∷ []

one_error : length (bulk entries) ≡ 1
unfolding bulk scan_entries has_from any_from split trim_space to_upper has_prefix add
one_error = refl
