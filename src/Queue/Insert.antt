-- ===== src/Queue/Insert.antt =====
-- Queue.Push
use mathlib.Core.List.{mem-cons, not-mem-nil}
use mathlib.Core.List.Perm
use mathlib.Core.Logic.Or
use buildkit_multipartable.Base.{
  pos, ◌≤ℤ◌, length, ◌≡◌, refl, inl, inr, ◌⊎◌, ℤ, true, false, ◌∷◌, Perm, some, arith, length-perm,
  Bool-cases,
}
use buildkit_multipartable.Domain.{Build}
use buildkit_multipartable.Queue.Heap.Calls.{push_lem}
use buildkit_multipartable.Queue.{Queue, new, task, full, len, push, IsValid}

pub ℤ-set : IsSet ℤ
ℤ-set = hlevel

pub new-IsValid : (max_len : ℤ) → IsValid (new max_len)
unfolding new
new-IsValid max_len = record {
  ordered = λ c p q. absurd (omega arith);
  scored = λ t m. absurd (not-mem-nil m);
  bounded = omega arith;
}

-- What a push that finds room leaves: a valid queue with one more task.
pub record Pushed (q : Queue) (b : Build) (q' : Queue) : Type 0 where
  pub valid : IsValid q'
  pub same : Perm q'.heap (task b ∷ q.heap)
  pub kept : q'.max_len ≡ q.max_len

-- How Push ends, by the code's own test.
abbrev pub Cases : Queue → Build → Type 0
Cases q b =
    ((full q ≡ true) × (push q b ≡ some (q, false)))
    ⊎ ((full q ≡ false) × (q' : Queue) × (push q b ≡ some (q', true)) × Pushed q b q')

pub push-Cases : (q : Queue) (b : Build) → IsValid q → Cases q b
unfolding push
push-Cases q b v = elim (Bool-cases (full q)) [
  | inl no_room ↦ inl (no_room, rw no_room)
  | inr room ↦
      let (g, run, order, same) = push_lem q.heap (task b) v.ordered in
      let q' : Queue = record q { heap = g } in
      inr (
        room,
        q',
        rw (room, run),
        record {
          valid = record {
            ordered = order;
            scored = λ t m.
                Or.elim (ℤ-set _ _) (mem-cons.0 ((Perm.mem_iff same).0 m)) (λ e. rw e refl)
                  (v.scored t);
            bounded = λ p. unfold full len in ground (arith, length-perm same, v.bounded p, room);
          };
          same = same;
          kept = refl;
        },
      )
]

-- The queue has a bound, and as many tasks as that.
abbrev pub IsAtCapacity : Queue → Type 0
IsAtCapacity q = (pos 1 ≤ℤ q.max_len) × (q.max_len ≤ℤ pos (length q.heap))

full_lem : (q : Queue) → full q ≡ true → IsAtCapacity q
unfolding full len
full_lem q h = (ground arith, ground arith)

room_lem : (q : Queue) → full q ≡ false → ¬ IsAtCapacity q
unfolding full len
room_lem q h at = ground (arith, at.0, at.1)

-- How Push ends: by refusing at capacity, or with room.
abbrev pub Pushes : Queue → Build → Type 0
Pushes q b =
    (IsAtCapacity q × (push q b ≡ some (q, false)))
    ⊎ ((¬ IsAtCapacity q) × (q' : Queue) × (push q b ≡ some (q', true)) × Pushed q b q')

-- On a valid queue Push does not panic. If the bound is positive and the queue has as many tasks as that, it
-- refuses the build and leaves the queue as it is; otherwise, and always if the bound is not positive, it
-- accepts the build, and the queue stays valid and holds the old tasks and the new one.
pub push_correct : (q : Queue) (b : Build) → IsValid q → Pushes q b
push_correct q b v = elim (push-Cases q b v) [
  | inl (no_room, run) ↦ inl (full_lem q no_room, run)
  | inr (room, q', run, p) ↦ inr (room_lem q room, q', run, p)
]
