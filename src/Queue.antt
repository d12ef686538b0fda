-- ===== src/Queue.antt =====
-- server/internal/queue/queue.go: Queue. The mutex makes each method one step; a method returns the
-- new queue with its result, and `none` stands for a panic in container/heap.
pub mod Slice
pub mod Heap
pub mod Insert
pub mod Extract
pub mod Score
pub mod Examples
use buildkit_multipartable.Base.{
  ℕ, zero, suc, ◌+◌, ◌≡◌, ℤ, pos, Bool, true, false, not, ◌&&◌, List, [], ◌∷◌, Option, none, some,
  Bytes, eqb, length, get_elem?, ltb_ℤ, ◌==◌, if◌then◌else◌, ◌>>=◌, Float64, Mem, ◌≤ℤ◌, ◌<◌,
}
use buildkit_multipartable.Domain.{Build}
use Heap.{Task}
use Heap.Calls.{IsOrdered}

pub record Queue : Type 0 where
  pub heap : List Task
  pub max_len : ℤ

unfoldable pub new : ℤ → Queue
new max_len = record { heap = []; max_len = max_len }

-- Len
unfoldable pub len : Queue → ℕ
len q = length q.heap

unfoldable pub full : Queue → Bool
unfolding len
full q = ltb_ℤ (pos 0) q.max_len && not (ltb_ℤ (pos (len q)) q.max_len)

abbrev pub task : Build → Task
task b = record { build = b; score = b.priority }

unfoldable pub push : Queue → Build → Option (Queue × Bool)
push q b =
    if full q
    then some (q, false)
    else do h ← Heap.push q.heap (task b); some (record q { heap = h }, true)

unfoldable pub pop : Queue → Option (Queue × Option Build)
pop q =
    if length q.heap == 0
    then some (q, none)
    else do (h, t) ← Heap.pop q.heap; some (record q { heap = h }, some t.build)

-- the search loop of Remove, from index `i`
unfoldable pub index_of : Bytes → ℕ → List Task → Option ℕ
index_of id i [] = none
index_of id i (t ∷ ts) = if eqb t.build.id id then some i else index_of id (i + 1) ts

-- what Remove does at the index that the loop stops at
unfoldable pub remove_at : Queue → Option ℕ → Option (Queue × Option Build)
remove_at q none = some (q, none)
remove_at q (some i) = do
  t ← get_elem? q.heap i
  (h, removed) ← Heap.remove q.heap i
  some (record q { heap = h }, some t.build)

unfoldable pub remove : Queue → Bytes → Option (Queue × Option Build)
unfolding remove_at
remove q id = remove_at q (index_of id 0 q.heap)

module _ (fl : Float64) (score_fn : Build → fl.F) where
  open fl use {F, of_int, lit, add, mul, gt}

  -- float64(Priority) * 0.5 + scoreFn(build) * 10.0
  unfoldable pub combined : Task → F
  combined t = add (mul (of_int t.build.priority) (lit 5 1)) (mul (score_fn t.build) (lit 10 0))

  -- the loop of PeekByScore from index `i`: the best index and the best score
  unfoldable pub best_loop : ℕ → ℕ → F → List Task → ℕ × F
  best_loop i best_idx best_score [] = (best_idx, best_score)
  best_loop i best_idx best_score (t ∷ ts) =
      let better = best_loop (i + 1) i (combined t) ts in
      let same = best_loop (i + 1) best_idx best_score ts in
      if gt (combined t) best_score then better else same

  unfoldable pub peek_by_score : Queue → Option (Queue × Option Build)
  peek_by_score q = if length q.heap == 0 then some (q, none) else do
    let best_idx = (best_loop 0 0 (lit 0 0) q.heap).0
    result ← get_elem? q.heap best_idx
    (h, removed) ← Heap.remove q.heap best_idx
    some (record q { heap = h }, some result.build)

-- The slice is in heap order, each task is scored by its build's priority, and the queue is within
-- its bound.
pub record IsValid (q : Queue) : Type 0 where
  pub ordered : IsOrdered q.heap
  pub scored : (t : Task) → Mem t q.heap → t.score ≡ t.build.priority
  pub bounded : pos 1 ≤ℤ q.max_len → pos (length q.heap) ≤ℤ q.max_len
