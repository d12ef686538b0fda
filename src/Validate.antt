-- ===== src/Validate.antt =====
-- server/internal/validate/validate.go. A Result is its list of error messages.
pub mod Lines
pub mod Verdict
mod Examples
use buildkit_multipartable.Base.{
  ℕ, zero, suc, ◌+◌, Bool, true, false, not, ◌&&◌, ◌||◌, List, [], ◌∷◌, ◌++◌, Option, none, some,
  Bytes, codes, eqb, drop, take, length, ltb, ◌==◌, if◌then◌else◌,
}
use buildkit_multipartable.Strings.{
  has_prefix, index, last_index, contains, count, split, trim_space, to_upper, decimal,
}

pub record BuildInput : Type 0 where
  pub dockerfile : Bytes
  pub image_tag : Bytes

pub record BulkEntry : Type 0 where
  pub path : Bytes
  pub name : Bytes
  pub content : Bytes
  pub tag : Bytes

abbrev pub Errors : Type 0
Errors = List Bytes

-- Valid
abbrev pub valid : Errors → Bool
valid [] = true
valid (e ∷ es) = false

unfoldable pub add : Bytes → Bytes → Errors → Errors
add what msg r = r ++ (what ++ (codes ": " ++ msg)) ∷ []

abbrev pub newline : ℕ
newline = 10

abbrev pub from_prefix : Bytes
from_prefix = codes "FROM "

unfoldable pub invalid_ref : Bytes → Bytes → Bytes
invalid_ref ref why = codes "invalid image ref: " ++ (ref ++ why)

unfoldable pub validate_image_ref : Bytes → Errors → Errors
validate_image_ref ref r =
    if ltb 2 (count ref b':')
    then add (codes "dockerfile") (invalid_ref ref (codes " (too many colons)")) r
    else if contains ref (codes "://")
    then add (codes "dockerfile") (invalid_ref ref (codes " (contains ://)")) r
    else if contains ref (codes " ") && not (contains (to_upper ref) (codes " AS "))
    then add (codes "dockerfile") (invalid_ref ref (codes " (contains spaces)")) r
    else r

-- the image of a FROM line without `--platform=…`
unfoldable pub after_platform : Bytes → Bytes
after_platform img =
    if has_prefix (to_upper img) (codes "--PLATFORM")
    then (elim (index img (codes " ")) [
      | some i ↦ if ltb 0 i then trim_space (drop (i + 1) img) else img
      | none ↦ img
    ])
    else img

-- and without `AS …`
unfoldable pub before_as : Bytes → Bytes
before_as img = elim (last_index (to_upper img) (codes " AS ")) [
  | some i ↦ if ltb 0 i then trim_space (take i img) else img
  | none ↦ img
]

-- what the loop does with the image of a FROM line
unfoldable pub validate_from : Bytes → Errors → Errors
validate_from img r =
    if eqb img []
    then add (codes "dockerfile") (codes "FROM with empty image") r
    else validate_image_ref (before_as (after_platform img)) r

abbrev pub is_skipped : Bytes → Bool
is_skipped line = eqb line [] || has_prefix line (codes "#")

-- the loop of validateDockerfile: whether a FROM line was seen, and the errors
unfoldable pub scan_lines : List Bytes → Bool → Errors → Bool × Errors
scan_lines [] has_from r = (has_from, r)
scan_lines (l ∷ ls) has_from r =
    let line = trim_space l in
    let is_from = not (is_skipped line) && has_prefix (to_upper line) from_prefix in
    scan_lines ls (has_from || is_from)
      (if is_from then validate_from (trim_space (drop 5 line)) r else r)

unfoldable pub validate_dockerfile : Bytes → Errors → Errors
validate_dockerfile content r =
    let (has_from, r') = scan_lines (split content newline) false r in
    if has_from then r' else add (codes "dockerfile") (codes "no FROM line found") r'

unfoldable pub any_from : List Bytes → Bool
any_from [] = false
any_from (l ∷ ls) = has_prefix (to_upper (trim_space l)) from_prefix || any_from ls

-- hasFROM
unfoldable pub has_from : Bytes → Bool
unfolding any_from
has_from content = any_from (split content newline)

unfoldable pub validate_tag : Bytes → Errors → Errors
validate_tag tag r =
    if contains tag (codes "://")
    then add (codes "image_tag") (codes "invalid: " ++ (tag ++ codes " (contains ://)")) r
    else if ltb 2 (count tag b':')
    then add (codes "image_tag") (codes "too many colons in tag") r
    else r

unfoldable pub single : BuildInput → Errors
single input =
    let content = trim_space input.dockerfile in
    let r =
      if eqb content []
      then add (codes "dockerfile") (codes "empty") []
      else if contains content (newline ∷ []) || has_prefix (to_upper content) from_prefix
      then validate_dockerfile content []
      else [] in
    if eqb input.image_tag []
    then add (codes "image_tag") (codes "empty") r
    else validate_tag input.image_tag r

unfoldable pub entry_prefix : ℕ → BulkEntry → Bytes
entry_prefix i e =
    codes "entry[" ++ (decimal i ++ (codes "] " ++ (e.path ++ (codes "/" ++ e.name))))

-- the loop of Bulk from index `i`
unfoldable pub scan_entries : ℕ → List BulkEntry → Errors → Errors
scan_entries i [] r = r
scan_entries i (e ∷ es) r = scan_entries (i + 1) es (
    if length e.content == 0
    then add (entry_prefix i e) (codes "empty Dockerfile") r
    else if not (has_from e.content)
    then add (entry_prefix i e) (codes "missing FROM line") r
    else r)

unfoldable pub bulk : List BulkEntry → Errors
bulk entries =
    let r = scan_entries 0 entries [] in
    if length entries == 0 then add (codes "bulk") (codes "no Dockerfiles found") r else r
