-- ===== src/Fingerprint/Examples.antt =====
-- Runs of FromDockerfile.
use buildkit_multipartable.Base.{◌≡◌, refl, [], ◌∷◌, Bytes, codes}
use buildkit_multipartable.Base.Sort.{sort}
use mathlib.Core.List.Perm
use buildkit_multipartable.Strings.{split, trim_space, to_upper, has_prefix, last_index}
use buildkit_multipartable.Fingerprint.{from_dockerfile, kind, scan, base_image, string_le}
use buildkit_multipartable.Fingerprint.Digest.{from_dockerfile_perm}

abbrev first_order : Bytes
first_order = codes "FROM golang AS b\nRUN go\n# note\nADD x"

abbrev second_order : Bytes
second_order = codes "RUN go\nFROM golang AS b\n# note\nADD x"

abbrev identity : Bytes → Bytes
identity s = s

first_order_instructions :
    (from_dockerfile identity first_order).instructions ≡ codes "ADD x" ∷ codes "RUN go" ∷ []
unfolding from_dockerfile scan kind base_image string_le split trim_space to_upper has_prefix
    last_index sort buildkit_multipartable.Base.Text.eqb
first_order_instructions = refl

from_dockerfile_perm_example :
    from_dockerfile identity first_order ≡ from_dockerfile identity second_order
unfolding split
from_dockerfile_perm_example =
    from_dockerfile_perm identity first_order second_order (Perm.swap _ _ _)
