-- ===== src/Scheduler.antt =====
-- server/internal/scheduler/scheduler.go. The mutex makes each method one step. The map of workers is
-- a list keyed by the field `id`, which always equals the map's key; `none` as the result of a run
-- stands for a panic on an index out of range, or for a loop that runs out of fuel.
pub mod Workers
pub mod Search
pub mod Ring
pub mod Shape
pub mod Assign
pub mod Overlap
pub mod Steps
mod Examples
use Prim.Native.Nat.{bit_xor}
use buildkit_multipartable.Base.{
  ℕ, zero, suc, ◌+◌, ◌-◌, ◌*◌, ◌/◌, ◌%◌, ◌^◌, ◌<◌, ℤ, pos, Bool, true, false, not, ◌&&◌, ◌||◌, List,
  [], ◌∷◌, ◌++◌, Option, none, some, Bytes, codes, eqb, length, get_elem?, select, any, ltb, leb,
  ◌==◌, if◌then◌else◌, ◌>>=◌, Float64,
}
use buildkit_multipartable.Base.Sort.{sort}
use buildkit_multipartable.Strings.{decimal}

abbrev pub virtual_replicas : ℕ
virtual_replicas = 150

pub record WorkerState : Type 0 where
  pub id : Bytes
  pub status : Bytes
  pub cache_keys : List Bytes
  pub load : ℕ

pub record RingNode : Type 0 where
  pub hash : ℕ
  pub worker_id : Bytes

pub record Scheduler : Type 0 where
  pub ring : List RingNode
  pub workers : List WorkerState

unfoldable pub new : Scheduler
new = record { ring = []; workers = [] }

-- FNV-1a with 64 bits, as in Go's hash/fnv
unfoldable pub fnv1a : ℕ → Bytes → ℕ
fnv1a h [] = h
fnv1a h (c ∷ s) = fnv1a (bit_xor h c * 1099511628211 % 2 ^ 64) s

-- hashToRing(hashKey(s))
unfoldable pub hash_key : Bytes → ℕ
unfolding fnv1a
hash_key s = fnv1a 14695981039346656037 s

unfoldable pub with_cache_keys : List Bytes → Bytes
with_cache_keys [] = []
with_cache_keys (ck ∷ cks) = b':' ∷ (ck ++ with_cache_keys cks)

-- the node of replica `i`
unfoldable pub replica : Bytes → List Bytes → ℕ → RingNode
unfolding with_cache_keys
replica worker_id cache_keys i = record {
  hash = hash_key (worker_id ++ (b':' ∷ (decimal i ++ with_cache_keys cache_keys)));
  worker_id = worker_id;
}

-- `count` replicas from `i` on
unfoldable pub replicas : Bytes → List Bytes → ℕ → ℕ → List RingNode
replicas worker_id cache_keys zero i = []
replicas worker_id cache_keys (suc count) i =
    replica worker_id cache_keys i ∷ replicas worker_id cache_keys count (i + 1)

-- the order of ringNodes
abbrev pub hash_le : RingNode → RingNode → Bool
hash_le a b = leb a.hash b.hash

-- the loop over the virtual replicas, and sort.Sort
unfoldable pub add_replicas : Bytes → List Bytes → List RingNode → List RingNode
add_replicas worker_id cache_keys ring =
    sort hash_le (ring ++ replicas worker_id cache_keys virtual_replicas 0)

-- removeWorkerLocked
unfoldable pub remove_worker_locked : Bytes → List RingNode → List RingNode
remove_worker_locked worker_id ring = select (λ n. not (eqb n.worker_id worker_id)) ring

-- s.workers[id]
unfoldable pub find_worker : Bytes → List WorkerState → Option WorkerState
find_worker id [] = none
find_worker id (w ∷ ws) = if eqb w.id id then some w else find_worker id ws

-- s.workers[w.ID] = w
unfoldable pub put_worker : WorkerState → List WorkerState → List WorkerState
put_worker w [] = w ∷ []
put_worker w (v ∷ vs) = if eqb v.id w.id then w ∷ vs else v ∷ put_worker w vs

-- delete(s.workers, id)
unfoldable pub delete_worker : Bytes → List WorkerState → List WorkerState
delete_worker id ws = select (λ w. not (eqb w.id id)) ws

abbrev pub fresh_worker : Bytes → Bytes → List Bytes → WorkerState
fresh_worker id status cache_keys = record {
  id = id;
  status = status;
  cache_keys = cache_keys;
  load = 0;
}

abbrev pub idle : Bytes
idle = codes "idle"

abbrev pub busy : Bytes
busy = codes "busy"

abbrev pub offline : Bytes
offline = codes "offline"

unfoldable pub register_worker : Bytes → Bytes → List Bytes → Scheduler → Scheduler
register_worker worker_id status cache_keys s =
    let cleared = remove_worker_locked worker_id s.ring in
    let workers' = put_worker (fresh_worker worker_id status cache_keys) s.workers in
    if eqb status offline
    then record { ring = cleared; workers = workers' }
    else record { ring = add_replicas worker_id cache_keys cleared; workers = workers' }

unfoldable pub remove_worker : Bytes → Scheduler → Scheduler
remove_worker worker_id s = record {
  ring = remove_worker_locked worker_id s.ring;
  workers = delete_worker worker_id s.workers;
}

unfoldable pub mark_worker_idle : Bytes → List Bytes → Scheduler → Scheduler
mark_worker_idle worker_id cache_keys s = record {
  ring = add_replicas worker_id cache_keys (remove_worker_locked worker_id s.ring);
  workers = put_worker (fresh_worker worker_id idle cache_keys) s.workers;
}

unfoldable pub mark_worker_busy : Bytes → Scheduler → Scheduler
mark_worker_busy worker_id s = elim (find_worker worker_id s.workers) [
  | none ↦ s
  | some ws ↦ record s { workers = put_worker (record ws { status = busy }) s.workers }
]

unfoldable pub prune_stale_workers : List Bytes → Scheduler → Scheduler
prune_stale_workers [] s = s
prune_stale_workers (id ∷ ids) s =
    prune_stale_workers ids
      (record { ring = remove_worker_locked id s.ring; workers = delete_worker id s.workers })

-- sort.Search: the least index in [i, j) at which `f` holds, else `j`, for a monotone `f`
unfoldable pub search_loop : ℕ → (ℕ → Bool) → ℕ → ℕ → Option ℕ
search_loop zero f i j = none
search_loop (suc k) f i j =
    let h = (i + j) / 2 in
    let left = search_loop k f i h in
    let right = search_loop k f (h + 1) j in
    let step = if f h then left else right in if ltb i j then step else some i

-- the test of AssignBuild's binary search, false out of range
unfoldable pub at_or_after : ℕ → List RingNode → ℕ → Bool
at_or_after target ring i = elim (get_elem? ring i) [ none ↦ false | some n ↦ leb target n.hash ]

-- one round of the walk: the worker of the node, if it is idle, else the rounds that are left
unfoldable pub visit :
    Scheduler
    → Bytes
    → Option WorkerState
    → Option (Scheduler × Option Bytes)
    → Option (Scheduler × Option Bytes)
visit s worker_id none rest = rest
visit s worker_id (some ws) rest =
    if eqb ws.status idle
    then some (
      record s { workers = put_worker (record ws { status = busy; load = ws.load + 1 }) s.workers },
      some worker_id,
    )
    else rest

-- the walk, with `k` nodes left from the `i`-th after `idx`
unfoldable pub walk : ℕ → ℕ → ℕ → Scheduler → Option (Scheduler × Option Bytes)
walk zero idx i s = some (s, none)
walk (suc k) idx i s =
    let rest = walk k idx (i + 1) s in
    do
      node ← get_elem? s.ring ((idx + i) % length s.ring)
      visit s node.worker_id (find_worker node.worker_id s.workers) rest

-- AssignBuild, with `none` for ("", false)
unfoldable pub assign_build : Bytes → Scheduler → Option (Scheduler × Option Bytes)
assign_build fingerprint s = if length s.ring == 0 then some (s, none) else do
  let target = hash_key fingerprint
  idx ← search_loop (length s.ring + 1) (at_or_after target s.ring) 0 (length s.ring)
  walk (length s.ring) idx 0 s

-- membership in a set built from a list
abbrev pub has : List Bytes → Bytes → Bool
has xs x = any (λ y. eqb y x) xs

-- the first loop of ScoreBuildForWorker over the cache keys: intersection and union so far
unfoldable pub count_cached : List Bytes → List Bytes → ℕ × ℕ
count_cached instrs [] = (0, 0)
count_cached instrs (ck ∷ cks) =
    let (common, total) = count_cached instrs cks in
    (if has instrs ck then common + 1 else common, total + 1)

-- the second loop: instructions that are no cache key
unfoldable pub count_new : List Bytes → List Bytes → ℕ
count_new cache_keys [] = 0
count_new cache_keys (x ∷ xs) =
    let rest = count_new cache_keys xs in if has cache_keys x then rest else rest + 1

-- intersection and union
unfoldable pub overlap : List Bytes → List Bytes → ℕ × ℕ
overlap instrs cache_keys =
    let (common, total) = count_cached instrs cache_keys in
    (common, total + count_new cache_keys instrs)

-- GetWorker
unfoldable pub get_worker : Bytes → Scheduler → Option WorkerState
get_worker worker_id s = find_worker worker_id s.workers

-- sharedPrefixLen
unfoldable pub shared_prefix_len : Bytes → Bytes → ℕ
shared_prefix_len (a ∷ x) (b ∷ y) =
    let rest = shared_prefix_len x y in if a == b then rest + 1 else 0
shared_prefix_len _ _ = 0

-- cacheScore, over the length of the best prefix; `hex_sha256` is fmt.Sprintf("%x", sha256.Sum256(…))
unfoldable pub best_prefix : Bytes → List Bytes → ℕ
best_prefix fp_hash [] = 0
best_prefix fp_hash (ck ∷ cks) =
    let rest = best_prefix fp_hash cks in
    let here = shared_prefix_len ck fp_hash in if ltb rest here then here else rest

module _ (fl : Float64) where
  open fl use {F, of_int, lit, div, gt}

  unfoldable pub score_build_for_worker : List Bytes → Bytes → Scheduler → F
  score_build_for_worker instrs worker_id s = elim (find_worker worker_id s.workers) [
    | none ↦ lit 0 0
    | some ws ↦
        if length ws.cache_keys == 0 || (length instrs == 0)
        then lit 0 0
        else let (common, total) = overlap instrs ws.cache_keys in
          if total == 0 then lit 0 0 else div (of_int (pos common)) (of_int (pos total))
  ]

  unfoldable pub cache_score : (Bytes → Bytes) → List Bytes → Bytes → F
  cache_score hex_sha256 cache_keys fingerprint =
      if length cache_keys == 0
      then lit 0 0
      else let score =
          div (of_int (pos (best_prefix (hex_sha256 fingerprint) cache_keys))) (lit 64 0) in
        if gt score (lit 1 0) then lit 1 0 else score
