-- ===== src/Fingerprint/Digest.antt =====
-- FromDockerfile as a whole.
use buildkit_multipartable.Base.{◌≡◌, List, [], Perm, Bytes}
use buildkit_multipartable.Base.Sort.{IsSorted, sort, perm-sort}
use mathlib.Core.List.{is_set}
use native.Mathlib.Nat.{ℕ_set}
use buildkit_multipartable.Strings.{split}
use buildkit_multipartable.Fingerprint.{string_le, digest, from_dockerfile}
use buildkit_multipartable.Fingerprint.Lines.{
  string_le-IsOrder, string_le_antisym, base_lines, instruction_lines, scan_lem, perm-found,
  base_of, instruction_of,
}

abbrev pub Lists : List Bytes → List Bytes → Type 0
Lists found ys = Perm found ys × IsSorted string_le found

abbrev bases_of : Bytes → List Bytes
bases_of content = sort string_le (base_lines (split content 10))

abbrev instructions_of : Bytes → List Bytes
instructions_of content = sort string_le (instruction_lines (split content 10))

sorted_perm : {xs ys : List Bytes} → Perm xs ys → sort string_le xs ≡ sort string_le ys
sorted_perm = perm-sort string_le string_le-IsOrder string_le_antisym (is_set ℕ_set)

module _ (sha256 : Bytes → Bytes) where
  from_dockerfile_lem :
      (content : Bytes)
      → from_dockerfile sha256 content ≡ record {
        hash = digest sha256 (bases_of content) (instructions_of content);
        base_images = bases_of content;
        instructions = instructions_of content;
      }
  unfolding from_dockerfile
  from_dockerfile_lem content = rw (scan_lem (split content 10) [] [])

  -- Two Dockerfiles whose lines are the same up to their order have the same fingerprint.
  pub from_dockerfile_perm :
      (c d : Bytes)
      → Perm (split c 10) (split d 10)
      → from_dockerfile sha256 c ≡ from_dockerfile sha256 d
  from_dockerfile_perm c d p =
      let b = sorted_perm (perm-found base_of p) in
      let i = sorted_perm (perm-found instruction_of p) in
      rw (from_dockerfile_lem c, from_dockerfile_lem d, b, i)
