-- ===== src/Validate/Lines.antt =====
-- The loops of validateDockerfile and hasFROM.
use buildkit_multipartable.Base.{
  ◌+◌, ◌≡◌, refl, Bool, true, false, not, ◌&&◌, ◌||◌, List, [], ◌∷◌, ◌++◌, arith, Bytes, codes, eqb,
  drop, ltb, length, length-append,
}
use buildkit_multipartable.Strings.{has_prefix, contains, count, trim_space, to_upper, upper}
use buildkit_multipartable.Validate.{
  Errors, valid, add, invalid_ref, from_prefix, validate_image_ref, after_platform, before_as,
  validate_from, is_skipped, scan_lines, any_from,
}

pub valid-add : (what msg : Bytes) (r : Errors) → valid (add what msg r) ≡ false
unfolding add
valid-add what msg [] = refl
valid-add what msg (e ∷ r) = refl

pub length-add : (what msg : Bytes) (r : Errors) → length (add what msg r) ≡ length r + 1
unfolding add
length-add what msg r = omega (arith, length-append {0} r ((what ++ (codes ": " ++ msg)) ∷ []))

-- At most two colons, no "://", and no space.
pub ref_ok : Bytes → Bool
ref_ok ref =
    not (ltb 2 (count ref b':'))
    && (not (contains ref (codes "://"))
        && (not (contains ref (codes " ")) || contains (to_upper ref) (codes " AS ")))

-- There is an image, and its reference is well-formed.
pub from_ok : Bytes → Bool
from_ok img = not (eqb img []) && ref_ok (before_as (after_platform img))

valid-validate_image_ref :
    (ref : Bytes) (r : Errors) → valid (validate_image_ref ref r) ≡ (valid r && ref_ok ref)
unfolding validate_image_ref ref_ok
valid-validate_image_ref ref r = ground (
  arith,
  valid-add (codes "dockerfile") (invalid_ref ref (codes " (too many colons)")) r,
  valid-add (codes "dockerfile") (invalid_ref ref (codes " (contains ://)")) r,
  valid-add (codes "dockerfile") (invalid_ref ref (codes " (contains spaces)")) r,
)

valid-validate_from :
    (img : Bytes) (r : Errors) → valid (validate_from img r) ≡ (valid r && from_ok img)
unfolding validate_from from_ok
valid-validate_from img r = ground (
  arith,
  valid-add (codes "dockerfile") (codes "FROM with empty image") r,
  valid-validate_image_ref (before_as (after_platform img)) r,
)

pub is_from_line : Bytes → Bool
is_from_line l = has_prefix (to_upper (trim_space l)) from_prefix

-- A blank line or a comment is no FROM line.
skipped_no_from :
    (line : Bytes) → is_skipped line ≡ true → has_prefix (to_upper line) from_prefix ≡ false
unfolding has_prefix to_upper upper eqb
skipped_no_from [] h = refl
skipped_no_from (c ∷ s) h = ground arith

-- The FROM lines have a well-formed image.
pub all_from_ok : List Bytes → Bool
all_from_ok [] = true
all_from_ok (l ∷ ls) =
    (not (is_from_line l) || from_ok (trim_space (drop 5 (trim_space l)))) && all_from_ok ls

pub scan_lines_verdict :
    (ls : List Bytes) (b : Bool) (r : Errors)
    → ((scan_lines ls b r).0 ≡ (b || any_from ls))
      × (valid (scan_lines ls b r).1 ≡ (valid r && all_from_ok ls))
unfolding scan_lines any_from all_from_ok is_from_line
scan_lines_verdict [] b r = ground arith
scan_lines_verdict (l ∷ ls) b r = ground (
  arith,
  skipped_no_from (trim_space l),
  valid-validate_from (trim_space (drop 5 (trim_space l))) r,
  scan_lines_verdict ls b r,
  scan_lines_verdict ls true (validate_from (trim_space (drop 5 (trim_space l))) r),
)
