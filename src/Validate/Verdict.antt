-- ===== src/Validate/Verdict.antt =====
-- Single and Bulk.
use buildkit_multipartable.Base.{
  ℕ, ◌+◌, ◌≡◌, Bool, not, ◌&&◌, ◌||◌, List, [], ◌∷◌, arith, Bytes, codes, eqb, ltb, ◌==◌,
  if◌then◌else◌, length,
}
use buildkit_multipartable.Strings.{has_prefix, contains, count, split, to_upper}
use buildkit_multipartable.Validate.{
  BulkEntry, Errors, add, newline, from_prefix, has_from, entry_prefix, scan_entries, bulk,
}
use buildkit_multipartable.Validate.Lines.{length-add, all_from_ok}

-- A FROM line is required, and each has a well-formed image.
pub dockerfile_ok : Bytes → Bool
dockerfile_ok content = has_from content && all_from_ok (split content newline)

-- Content on one line that does not begin with FROM is taken for a file name.
pub is_inline : Bytes → Bool
is_inline content = contains content (newline ∷ []) || has_prefix (to_upper content) from_prefix

pub content_ok : Bytes → Bool
content_ok content = not (eqb content []) && (not (is_inline content) || dockerfile_ok content)

pub tag_ok : Bytes → Bool
tag_ok tag = not (eqb tag []) && (not (contains tag (codes "://")) && not (ltb 2 (count tag b':')))

-- the entry has content with a FROM line
pub entry_ok : BulkEntry → Bool
entry_ok e = not (length e.content == 0) && has_from e.content

pub bad_entries : List BulkEntry → ℕ
bad_entries [] = 0
bad_entries (e ∷ es) = let n = bad_entries es in if entry_ok e then n else n + 1

length-scan_entries :
    (i : ℕ) (es : List BulkEntry) (r : Errors)
    → length (scan_entries i es r) ≡ length r + bad_entries es
unfolding scan_entries bad_entries entry_ok
length-scan_entries i [] r = omega arith
length-scan_entries i (e ∷ es) r = ground (
  arith,
  length-scan_entries (i + 1) es r,
  length-scan_entries (i + 1) es (add (entry_prefix i e) (codes "empty Dockerfile") r),
  length-scan_entries (i + 1) es (add (entry_prefix i e) (codes "missing FROM line") r),
  length-add (entry_prefix i e) (codes "empty Dockerfile") r,
  length-add (entry_prefix i e) (codes "missing FROM line") r,
)

-- A bulk submission gets one error for each entry that is empty or has no FROM line, and one for
-- having no entries.
bulk_correct :
    (entries : List BulkEntry)
    → length (bulk entries) ≡ bad_entries entries + (if length entries == 0 then 1 else 0)
unfolding bulk
bulk_correct entries = ground (
  arith,
  length-scan_entries 0 entries [],
  length-add (codes "bulk") (codes "no Dockerfiles found") (scan_entries 0 entries []),
)
