-- ===== src/Fingerprint.antt =====
-- server/internal/fingerprint/fingerprint.go. The digest of crypto/sha256 is a parameter.
pub mod Lines
pub mod Digest
mod Examples
use buildkit_multipartable.Base.{
  ℕ, zero, suc, ◌+◌, ◌-◌, ◌/◌, ◌%◌, Bool, true, false, not, ◌&&◌, ◌||◌, List, [], ◌∷◌, ◌++◌, Option,
  none, some, Bytes, codes, eqb, drop, take, ltb, leb, ◌==◌, if◌then◌else◌,
}
use buildkit_multipartable.Base.Sort.{sort}
use buildkit_multipartable.Strings.{has_prefix, last_index, split, trim_space, to_upper}

pub record Fingerprint : Type 0 where
  pub hash : Bytes
  pub base_images : List Bytes
  pub instructions : List Bytes

-- the image of a FROM line, without `AS …`
unfoldable pub base_image : Bytes → Bytes
base_image line =
    let img = trim_space (drop 5 line) in
    elim (last_index (to_upper img) (codes " AS ")) [
      | some i ↦ if ltb 0 i then trim_space (take i img) else trim_space img
      | none ↦ trim_space img
    ]

-- what the loop does with a line
pub data Kind : Type 0 where
  skipped : Kind
  base : Bytes → Kind
  instruction : Bytes → Kind

unfoldable pub kind : Bytes → Kind
kind raw =
    let line = trim_space raw in
    let upper = to_upper line in
    if eqb line [] || has_prefix line (codes "#")
    then skipped
    else if has_prefix upper (codes "FROM ")
    then base (base_image line)
    else if has_prefix upper (codes "RUN ")
        || has_prefix upper (codes "COPY ")
        || has_prefix upper (codes "ADD ")
    then instruction line
    else skipped

-- the loop, with the two slices it appends to
unfoldable pub scan : List Bytes → List Bytes → List Bytes → List Bytes × List Bytes
scan [] bases instructions = (bases, instructions)
scan (l ∷ ls) bases instructions = elim (kind l) [
  | skipped ↦ scan ls bases instructions
  | base img ↦ scan ls (bases ++ img ∷ []) instructions
  | instruction line ↦ scan ls bases (instructions ++ line ∷ [])
]

-- the order of sort.Strings
unfoldable pub string_le : Bytes → Bytes → Bool
string_le [] y = true
string_le (a ∷ x) [] = false
string_le (a ∷ x) (b ∷ y) = ltb a b || ((a == b) && string_le x y)

-- what is written to the hash for a list
unfoldable pub written : List Bytes → Bytes
written [] = []
written (x ∷ xs) = x ++ (0 ∷ written xs)

unfoldable pub hex_digit : ℕ → ℕ
hex_digit d = if ltb d 10 then b'0' + d else b'a' + d - 10

-- the verb %x
unfoldable pub hex : Bytes → Bytes
unfolding hex_digit
hex [] = []
hex (b ∷ s) = hex_digit (b / 16) ∷ hex_digit (b % 16) ∷ hex s

-- the digest of the bases and the instructions, each ended by a zero byte
unfoldable pub digest : (Bytes → Bytes) → List Bytes → List Bytes → Bytes
digest sha256 bases instructions = hex (sha256 (written bases ++ written instructions))

unfoldable pub from_dockerfile : (Bytes → Bytes) → Bytes → Fingerprint
from_dockerfile sha256 content =
    let found = scan (split content 10) [] [] in
    let bases = sort string_le found.0 in
    let instructions = sort string_le found.1 in
    record {
      hash = digest sha256 bases instructions;
      base_images = bases;
      instructions = instructions;
    }
