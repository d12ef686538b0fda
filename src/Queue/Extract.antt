-- ===== src/Queue/Extract.antt =====
-- Queue.Pop and Queue.Remove
use mathlib.Core.List.{mem-cons, mem-cons_of_mem, not-mem-nil}
use mathlib.Core.List.Perm
use mathlib.Core.Logic.Or
use native.Mathlib.Bridge.{le_prop}
use buildkit_multipartable.Base.{
  ℕ, suc, ◌+◌, ◌<◌, ◌≡◌, refl, ap, ◌∙◌, inl, inr, ◌⊎◌, Bool, true, false, none, some, List, [], ◌∷◌,
  Perm, Mem, arith, length, length-perm, Bool-cases, ◌≤ℤ◌, ◌==◌, Bytes, eqb, eqb_iff,
}
use buildkit_multipartable.Queue.Slice
use buildkit_multipartable.Queue.Heap
use buildkit_multipartable.Queue.Heap.{Task, blank, at, score}
use buildkit_multipartable.Queue.Heap.Order.{root_greatest}
use buildkit_multipartable.Queue.Heap.Calls.{Taken, pop_lem, remove_lem}
use buildkit_multipartable.Queue.{Queue, pop, index_of, remove, remove_at, IsValid}

pub Bool-set : IsSet Bool
Bool-set = hlevel

-- What taking the task `t` out leaves: a valid queue of the other tasks.
pub record Removed (q : Queue) (t : Task) (q' : Queue) : Type 0 where
  pub valid : IsValid q'
  pub same : Perm (t ∷ q'.heap) q.heap
  pub kept : q'.max_len ≡ q.max_len

pub Taken-Removed :
    (q : Queue) (g : List Task) (t : Task)
    → IsValid q
    → Taken q.heap g t
    → Removed q t (record q { heap = g })
Taken-Removed q g t v taken = record {
  valid = record {
    ordered = taken.ordered;
    scored = λ u m. v.scored u ((Perm.mem_iff taken.same).0 (mem-cons_of_mem t m));
    bounded = λ p. omega (arith, length-perm taken.same, v.bounded p);
  };
  same = taken.same;
  kept = refl;
}

-- No build exceeds the one at the root in priority.
pub root_highest :
    (q : Queue)
    → IsValid q
    → 0 < length q.heap
    → (u : Task) → Mem u q.heap
    → u.build.priority ≤ℤ (at q.heap 0).build.priority
root_highest q v p u m =
    let below : (u : Task) → Mem u q.heap → u.score ≤ℤ score q.heap 0 =
      Slice.of_entries blank (λ u. u.score ≤ℤ score q.heap 0) q.heap (λ u. le_prop)
        (λ i p. root_greatest (length q.heap) q.heap i v.ordered p) in
    ground
      (arith, v.scored u m, v.scored (at q.heap 0) (Slice.mem-entry blank q.heap 0 p), below u m)

-- Taking the task at an index in range out.
pub remove-Removed :
    (q : Queue) (k : ℕ)
    → IsValid q
    → k < length q.heap
    → (g : List Task) × (Heap.remove q.heap k ≡ some (g, at q.heap k))
      × Removed q (at q.heap k) (record q { heap = g })
remove-Removed q k v p =
    let (g, run, taken) = remove_lem q.heap k v.ordered p in
    (g, run, Taken-Removed q g (at q.heap k) v taken)

-- How Pop ends: with nothing from an empty queue, or with a build of the highest priority.
abbrev pub Pops : Queue → Type 0
Pops q =
    ((length q.heap ≡ 0) × (pop q ≡ some (q, none)))
    ⊎ ((q' : Queue) × (t : Task) × (pop q ≡ some (q', some t.build))
        × Removed q t q'
        × ((u : Task) → Mem u q.heap → u.build.priority ≤ℤ t.build.priority))

-- On a valid queue Pop does not panic. An empty queue gives nothing and stays empty; from any other
-- comes one build that no queued build exceeds in priority, and a valid queue of the others is left.
pub pop_correct : (q : Queue) → IsValid q → Pops q
unfolding pop
pop_correct q v = elim (Bool-cases (length q.heap == 0)) [
  | inl empty ↦ inl (ground arith, rw empty)
  | inr filled ↦
      let (g, run, taken) = pop_lem q.heap v.ordered (ground arith) in
      inr (
        record q { heap = g },
        at q.heap 0,
        rw (filled, run),
        Taken-Removed q g (at q.heap 0) v taken,
        root_highest q v (ground arith),
      )
]

index_of_cases :
    (id : Bytes) (i : ℕ) (ts : List Task)
    → ((index_of id i ts ≡ none) × ((t : Task) → Mem t ts → eqb t.build.id id ≡ false))
      ⊎ ((k : ℕ) × (k < length ts)
          × (index_of id i ts ≡ some (i + k))
          × (eqb (at ts k).build.id id ≡ true))
unfolding index_of Slice.entry
index_of_cases id i [] = inl (refl, λ t m. absurd (not-mem-nil m))
index_of_cases id i (t ∷ ts) = elim (Bool-cases (eqb t.build.id id)) [
  | inl hit ↦ inr (0, omega arith, rw hit (ap some (omega arith)), hit)
  | inr miss ↦ elim (index_of_cases id (i + 1) ts) [
    | inl (e, others) ↦
        inl (rw miss e, λ u m. Or.elim (Bool-set _ _) (mem-cons.0 m) (λ e'. rw e' miss) (others u))
    | inr (k, p, e, hit) ↦ inr (suc k, omega arith, rw (miss, e) (ap some (omega arith)), hit)
  ]
]

-- How Remove ends: no build has the id, or one with the id comes out.
abbrev pub Removes : Queue → Bytes → Type 0
Removes q id =
    ((remove q id ≡ some (q, none)) × ((t : Task) → Mem t q.heap → eqb t.build.id id ≡ false))
    ⊎ ((q' : Queue) × (t : Task) × (remove q id ≡ some (q', some t.build))
        × Removed q t q'
        × (t.build.id ≡ id))

-- On a valid queue Remove does not panic. Either no queued build has the id and the queue stays as it
-- is, or a build with the id comes out and a valid queue of the others is left.
pub remove_correct : (q : Queue) (id : Bytes) → IsValid q → Removes q id
unfolding remove remove_at
remove_correct q id v = elim (index_of_cases id 0 q.heap) [
  | inl (e, others) ↦ inl (rw e, others)
  | inr (k, p, e, hit) ↦
      let (g, run, removed) = remove-Removed q k v p in
      let found : index_of id 0 q.heap ≡ some k = e ∙ ap some (omega arith) in
      inr (
        record q { heap = g },
        at q.heap k,
        rw (found, Slice.get_elem?-entry blank q.heap k p, run),
        removed,
        (eqb_iff _ _).0 hit,
      )
]
