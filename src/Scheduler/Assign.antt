-- ===== src/Scheduler/Assign.antt =====
-- AssignBuild
use native.Mathlib.Decide.{ℕ_discrete, dec_le}
use native.Mathlib.Nat.{mod-eq_of_lt, mod-lt}
use buildkit_multipartable.Base.{
  ℕ, zero, suc, ◌+◌, ◌-◌, ◌%◌, ◌≤◌, ◌<◌, ◌≡◌, refl, sym, ap, ◌∙◌, ◌⊎◌, inl, inr, Bool, true, false,
  Option, none, some, List, [], ◌∷◌, arith, Bytes, eqb, if◌then◌else◌, Bool-cases, length,
  get_elem?, ◌==◌,
}
use buildkit_multipartable.Scheduler.{
  Scheduler, WorkerState, RingNode, idle, busy, find_worker, put_worker, hash_key, at_or_after,
  visit, walk, assign_build,
}
use buildkit_multipartable.Scheduler.Workers.{find_worker-id, find_worker-put_worker}
use buildkit_multipartable.Scheduler.Search.{IsSplit, search_loop_splits}
use buildkit_multipartable.Scheduler.Ring.{nodes, node_of, at_or_after-IsMonotone}
use buildkit_multipartable.Scheduler.Shape.{IsShaped, is_idle, busy-IsShaped}

-- the worker of the node at an index is idle
abbrev pub idle_at : Scheduler → ℕ → Bool
idle_at s p = elim (get_elem? s.ring p) [
  | none ↦ false
  | some n ↦ is_idle (find_worker n.worker_id s.workers)
]

abbrev pub occupied : WorkerState → WorkerState
occupied w = record w { status = busy; load = w.load + 1 }

-- The walk stops at the `c`-th node after `idx`, the first one whose worker is idle, and occupies it.
pub record Picks (s : Scheduler) (idx i c : ℕ) (n : RingNode) (w : WorkerState) : Type 0 where
  pub from : i ≤ c
  pub node : get_elem? s.ring ((idx + c) % length s.ring) ≡ some n
  pub worker : find_worker n.worker_id s.workers ≡ some w
  pub free : eqb w.status idle ≡ true
  pub first : (d : ℕ) → i ≤ d → d < c → idle_at s ((idx + d) % length s.ring) ≡ false

abbrev pub Walked : Scheduler → ℕ → ℕ → ℕ → Option (Scheduler × Option Bytes) → Type 0
Walked s k idx i r =
    ((r ≡ some (s, none))
      × ((d : ℕ) → i ≤ d → d < i + k → idle_at s ((idx + d) % length s.ring) ≡ false))
    ⊎ ((c : ℕ) × (n : RingNode) × (w : WorkerState) × (r
          ≡ some (record s { workers = put_worker (occupied w) s.workers }, some n.worker_id))
        × (c < i + k)
        × Picks s idx i c n w)

in_range : {A : Type 0} (xs : List A) (i : ℕ) → i < length xs → (x : A) × (get_elem? xs i ≡ some x)
in_range [] i h = absurd (omega arith)
in_range (x ∷ xs) zero h = (x, refl)
in_range (x ∷ xs) (suc i) h = in_range xs i (omega arith)

-- One step past a node whose worker is not idle.
Walked-skip :
    (s : Scheduler) (k idx i : ℕ) (r : Option (Scheduler × Option Bytes))
    → idle_at s ((idx + i) % length s.ring) ≡ false
    → Walked s k idx (i + 1) r
    → Walked s (suc k) idx i r
Walked-skip s k idx i r h (inl (e, others)) = inl (
  e,
  λ d p q. elim (ℕ_discrete d i) [
    | yes same ↦ rw same h
    | no other ↦ others d (omega arith) (omega arith)
  ],
)
Walked-skip s k idx i r h (inr (c, n, w, e, p, pick)) = inr (
  c,
  n,
  w,
  e,
  omega arith,
  record {
    from = omega (arith, pick.from);
    node = pick.node;
    worker = pick.worker;
    free = pick.free;
    first = λ d p q. elim (ℕ_discrete d i) [
      | yes same ↦ rw same h
      | no other ↦ pick.first d (omega arith) q
    ];
  },
)

true_ne_false : ◌≡◌ {A = Bool} true false → ⊥
true_ne_false e = cc

visit_walks :
    (s : Scheduler) (k idx i : ℕ) (n : RingNode) (o : Option WorkerState)
    (r : Option (Scheduler × Option Bytes))
    → get_elem? s.ring ((idx + i) % length s.ring) ≡ some n
    → find_worker n.worker_id s.workers ≡ o
    → Walked s k idx (i + 1) r
    → Walked s (suc k) idx i (visit s n.worker_id o r)
unfolding visit
visit_walks s k idx i n none r at e h = Walked-skip s k idx i r (rw (at, idle_at) (rw e refl)) h
visit_walks s k idx i n (some w) r at e h = elim (Bool-cases (eqb w.status idle)) [
  | inr taken ↦ rw taken (Walked-skip s k idx i r (rw (at, idle_at) (rw e taken)) h)
  | inl free ↦ rw free (
      inr (
        i,
        n,
        w,
        refl,
        omega arith,
        record {
          from = omega arith;
          node = at;
          worker = e;
          free = free;
          first = λ d q r. absurd (omega arith);
        },
      ))
]

walk_walks : (k idx i : ℕ) (s : Scheduler) → 0 < length s.ring → Walked s k idx i (walk k idx i s)
unfolding walk
walk_walks zero idx i s p = inl (refl, λ d q r. absurd (omega arith))
walk_walks (suc k) idx i s p =
    let (n, at) = in_range s.ring ((idx + i) % length s.ring) (mod-lt (idx + i) p) in
    rw at (
      visit_walks s k idx i n (find_worker n.worker_id s.workers) _ at refl
        (walk_walks k idx (i + 1) s p))

wrap : (n p : ℕ) → p < n → (p + n) % n ≡ p
wrap n p q = grind arith

-- Every index is met on a full turn.
turn : (n idx p : ℕ) → idx ≤ n → p < n → (d : ℕ) × (d < n) × ((idx + d) % n ≡ p)
turn n idx p h q = elim (dec_le idx p) [
  | yes le ↦ (p - idx, omega arith, (ap (λ k. k % n) (omega arith)) ∙ mod-eq_of_lt q)
  | no gt ↦ (p + n - idx, omega arith, (ap (λ k. k % n) (omega arith)) ∙ wrap n p q)
]

-- AssignBuild occupies the worker `id`, the first idle one on the ring from the build's hash on, and
-- leaves `s'`.
pub record Assigned (fingerprint : Bytes) (s s' : Scheduler) (id : Bytes) : Type 0 where
  pub worker : WorkerState
  pub found : find_worker id s.workers ≡ some worker
  pub free : eqb worker.status idle ≡ true
  pub idx : ℕ
  pub split : IsSplit (at_or_after (hash_key fingerprint) s.ring) 0 (length s.ring) idx
  pub steps : ℕ
  pub node : RingNode
  pub named : node.worker_id ≡ id
  pub pick : Picks s idx 0 steps node worker
  pub ring : s'.ring ≡ s.ring
  pub workers :
      (j : Bytes)
      → find_worker j s'.workers
        ≡ (if eqb id j then some (occupied worker) else find_worker j s.workers)
  pub shaped : IsShaped s'

abbrev pub Assigns : Bytes → Scheduler → Type 0
Assigns fingerprint s =
    ((assign_build fingerprint s ≡ some (s, none))
      × ((id : Bytes) → is_idle (find_worker id s.workers) ≡ false))
    ⊎ ((s' : Scheduler) × (id : Bytes) × (assign_build fingerprint s ≡ some (s', some id))
        × Assigned fingerprint s s' id)

-- If no index of the ring has an idle worker, no worker is idle.
none_idle :
    (s : Scheduler)
    → IsShaped s
    → ((p : ℕ) → p < length s.ring → idle_at s p ≡ false)
    → (id : Bytes) → is_idle (find_worker id s.workers) ≡ false
none_idle s v h id = elim (Bool-cases (is_idle (find_worker id s.workers))) [
  | inr e ↦ e
  | inl e ↦
      let (p, n, q, at, same) = node_of id s.ring (rw (v.served id e) (omega arith)) in
      absurd (
        true_ne_false (
          sym e
          ∙ (sym (ap (λ j. is_idle (find_worker j s.workers)) same)
              ∙ (rw (at, idle_at) at (h p q)))))
]

Picks-Assigned :
    (fingerprint : Bytes) (s : Scheduler) (idx c : ℕ) (n : RingNode) (w : WorkerState)
    → IsShaped s
    → IsSplit (at_or_after (hash_key fingerprint) s.ring) 0 (length s.ring) idx
    → Picks s idx 0 c n w
    → Assigned fingerprint s (record s { workers = put_worker (occupied w) s.workers }) n.worker_id
Picks-Assigned fingerprint s idx c n w v split pick =
    let own : w.id ≡ n.worker_id = find_worker-id n.worker_id s.workers w pick.worker in
    record {
      worker = w;
      found = pick.worker;
      free = pick.free;
      idx = idx;
      split = split;
      steps = c;
      node = n;
      named = refl;
      pick = pick;
      ring = refl;
      workers = λ j.
          find_worker-put_worker j (occupied w) s.workers
          ∙ ap (λ i. if eqb i j then some (occupied w) else find_worker j s.workers) own;
      shaped =
          busy-IsShaped s v w (occupied w) (ap (λ i. find_worker i s.workers) own ∙ pick.worker)
            refl refl;
    }

-- On a scheduler that keeps the invariant AssignBuild does not panic. It finds no worker exactly if no
-- worker is idle, and then changes nothing. Otherwise it goes round the ring from the first node whose
-- hash is not below the build's, takes the worker of the first node whose worker is idle, marks it busy
-- with one more build, and changes nothing else; the invariant is kept.
pub assign_build_correct :
    (fingerprint : Bytes) (s : Scheduler) → IsShaped s → Assigns fingerprint s
unfolding assign_build
assign_build_correct fingerprint s v = elim (Bool-cases (length s.ring == 0)) [
  | inl empty ↦ inl (rw empty, none_idle s v (λ p q. absurd (ground arith)))
  | inr nodes ↦
      let size : 0 < length s.ring = ground arith in
      let test = at_or_after (hash_key fingerprint) s.ring in
      let (idx, run, split) =
        search_loop_splits (length s.ring + 1) test 0 (length s.ring) (omega arith) (omega arith)
          (at_or_after-IsMonotone (hash_key fingerprint) s.ring v.ordered) in
      rw (nodes, run)
        (elim (walk_walks (length s.ring) idx 0 s size) [
          | inl (e, others) ↦ inl (
            e,
            none_idle s v (λ p q.
                let (d, below, at) = turn (length s.ring) idx p split.within q in
                rw at at (others d (omega arith) (omega arith))),
          )
          | inr (c, n, w, e, below, pick) ↦ inr (
            record s { workers = put_worker (occupied w) s.workers },
            n.worker_id,
            e,
            Picks-Assigned fingerprint s idx c n w v split pick,
          )
        ])
]
