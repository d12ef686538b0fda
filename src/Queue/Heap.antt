-- ===== src/Queue/Heap.antt =====
-- server/internal/queue/queue.go: Task and taskHeap, with the functions of Go's container/heap on
-- it. `none` stands for a panic on an index out of range, and for a loop that runs out of fuel.
pub mod Order
pub mod Up
pub mod Down
pub mod Calls
use buildkit_multipartable.Base.{
  ℕ, zero, suc, ◌+◌, ◌-◌, ◌*◌, ◌/◌, ◌<◌, ◌≡◌, ℤ, pos, Bool, Option, none, some, List, [], ◌∷◌, ◌++◌,
  ltb, leb, ltb_ℤ, ◌==◌, if◌then◌else◌, ◌>>=◌, length, get_elem?, set, take,
}
use buildkit_multipartable.Domain.{Build, other}
use buildkit_multipartable.Queue.Slice

-- A float64 holds every priority exactly: the column is a 32-bit INTEGER.
pub record Task : Type 0 where
  pub build : Build
  pub score : ℤ

-- Less(i, j)
unfoldable pub less : List Task → ℕ → ℕ → Option Bool
less h i j = do x ← get_elem? h i; y ← get_elem? h j; some (ltb_ℤ y.score x.score)

-- Swap(i, j)
unfoldable pub swap : List Task → ℕ → ℕ → Option (List Task)
swap h i j = do y ← get_elem? h j; x ← get_elem? h i; some (set (set h i y) j x)

-- (c - 1) / 2, which is 0 at 0 in Go too
abbrev pub parent : ℕ → ℕ
parent c = (c - 1) / 2

-- the loop of heap.up
pub up_loop : ℕ → List Task → ℕ → Option (List Task)
up_loop zero h j = none
up_loop (suc k) h j =
    let i = parent j in
    let rise = swap h i j >>= λ g. up_loop k g i in
    let step = less h j i >>= λ above. if above then rise else some h in
    if i == j then some h else step

unfoldable pub up : List Task → ℕ → Option (List Task)
unfolding up_loop less swap
up h j = up_loop (j + 1) h j

-- the child of `i` to compare with, among the first `n`
pub larger_child : List Task → ℕ → ℕ → Option ℕ
larger_child h i n =
    let j1 = 2 * i + 1 in
    let j2 = j1 + 1 in
    if ltb j2 n then (do b ← less h j2 j1; some (if b then j2 else j1)) else some j1

-- the loop of heap.down, which ends at an index
pub down_loop : ℕ → List Task → ℕ → ℕ → Option (List Task × ℕ)
down_loop zero h i n = none
down_loop (suc k) h i n =
    let step : Option (List Task × ℕ) = do
      j ← larger_child h i n
      b ← less h j i
      let sink = swap h i j >>= λ g. down_loop k g j n
      if b then sink else some (h, i)
    in if leb n (2 * i + 1) then some (h, i) else step

-- heap.down tells whether the entry moved
unfoldable pub down : List Task → ℕ → ℕ → Option (List Task × Bool)
unfolding down_loop larger_child less swap
down h i0 n = do (h', i) ← down_loop (n + 1) h i0 n; some (h', ltb i0 i)

-- taskHeap.Pop takes the last entry
unfoldable pub pop_last : List Task → Option (List Task × Task)
pop_last h = do
  let n = length h
  x ← (if n == 0 then none else get_elem? h (n - 1))
  some (take (n - 1) h, x)

-- heap.Push, with taskHeap.Push as its first step
unfoldable pub push : List Task → Task → Option (List Task)
push h x = let h' = h ++ x ∷ [] in up h' (length h' - 1)

-- heap.Pop on a heap that is not empty
unfoldable pub pop : List Task → Option (List Task × Task)
pop h =
    if length h == 0
    then none
    else do let n = length h - 1; h1 ← swap h 0 n; (h2, moved) ← down h1 0 n; pop_last h2

-- the part of heap.Remove before the last entry is taken
unfoldable pub take_out : List Task → ℕ → ℕ → Option (List Task)
take_out h i n = do h1 ← swap h i n; (h2, moved) ← down h1 i n; if moved then some h2 else up h2 i

-- heap.Remove
unfoldable pub remove : List Task → ℕ → Option (List Task × Task)
remove h i =
    if length h == 0
    then none
    else do let n = length h - 1; h' ← (if n == i then some h else take_out h i n); pop_last h'

abbrev pub blank_build : Build
blank_build = record {
  id = [];
  status = other [];
  fingerprint = [];
  worker_id = [];
  context_key = [];
  dockerfile = [];
  image_tag = [];
  args = [];
  instructions = [];
  logs = [];
  error = [];
  retry_count = pos 0;
  max_retries = pos 0;
  timeout_seconds = pos 0;
  user_id = [];
  priority = pos 0;
  cache_hit_rate = record { num = pos 0; den = 1 };
  created_at = 0;
  updated_at = 0;
  completed_at = none;
}

abbrev pub blank : Task
blank = record { build = blank_build; score = pos 0 }

-- `h[i]`, for an index in range
abbrev pub at : List Task → ℕ → Task
at = Slice.entry blank

abbrev pub score : List Task → ℕ → ℤ
score h i = (at h i).score

module _ (h : List Task) (i j : ℕ) (hi : i < length h) (hj : j < length h) where
  pub less-some : less h i j ≡ some (ltb_ℤ (score h j) (score h i))
  unfolding less
  less-some = simp (Slice.get_elem?-entry blank h i hi, Slice.get_elem?-entry blank h j hj)

  pub swap-some : swap h i j ≡ some (Slice.exchange blank h i j)
  unfolding swap Slice.exchange
  swap-some = simp (Slice.get_elem?-entry blank h i hi, Slice.get_elem?-entry blank h j hj)
