-- ===== src/Worker.antt =====
-- server/internal/worker/worker.go: the cache keys and the retries of a worker.
pub mod Keys
pub mod Folder
pub mod Execute
pub mod Reports
pub mod Retries
pub mod Loop
mod Examples
mod Runs
use buildkit_multipartable.Base.{
  ℕ, zero, suc, ◌+◌, ◌-◌, Bool, true, false, ◌||◌, List, [], ◌∷◌, ◌++◌, Option, none, some, Bytes,
  codes, eqb, length, drop, ltb, ◌==◌, if◌then◌else◌,
}
use buildkit_multipartable.Strings.{contains}
use buildkit_multipartable.Scheduler.{has}

-- the loop of addCacheKeys
unfoldable pub add_new : List Bytes → List Bytes → List Bytes
add_new keys [] = keys
add_new keys (x ∷ xs) = add_new (if has keys x then keys else keys ++ x ∷ []) xs

-- the last 512 entries
unfoldable pub trim : List Bytes → List Bytes
trim keys = if ltb 512 (length keys) then drop (length keys - 512) keys else keys

unfoldable pub add_cache_keys : List Bytes → List Bytes → List Bytes
unfolding add_new trim
add_cache_keys keys instructions = trim (add_new keys instructions)

-- The loop of completeBuild: whether the server took the report, and how many requests were sent, for
-- the status codes that it answers with, `none` for a failed request.
unfoldable pub report : ℕ → List (Option ℕ) → ℕ → Bool × ℕ
report zero answers sent = (false, sent)
report (suc k) [] sent = report k [] (sent + 1)
report (suc k) (none ∷ later) sent = report k later (sent + 1)
report (suc k) (some code ∷ later) sent =
    let rest = report k later (sent + 1) in if code == 200 then (true, sent + 1) else rest

unfoldable pub complete_build : List (Option ℕ) → Bool × ℕ
unfolding report
complete_build answers = report 3 answers 0

-- tryExecuteBuild: whether the field holds the content of a Dockerfile, to be written to a file
unfoldable pub is_inline : Bytes → Bool
is_inline dockerfile =
    eqb dockerfile [] || contains dockerfile (10 ∷ []) || contains dockerfile (codes " ")
