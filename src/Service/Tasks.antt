-- ===== src/Service/Tasks.antt =====
-- The loops of AssignBuild and WarmQueue that push builds.
use buildkit_multipartable.Base.{
  ℕ, zero, suc, ◌+◌, ◌≤◌, ◌≡◌, refl, Bool, true, List, [], ◌∷◌, ◌++◌, some, map, Mem, Perm, inl,
  inr, ◌⊎◌, arith, All, length, take, ap, ◌∙◌,
}
use mathlib.Core.List.Perm
use mathlib.Core.List.{not-mem-nil, mem-cons, perm_middle}
use mathlib.Core.Logic.Or
use mathlib.Core.Bool.{Bool-set}
use buildkit_multipartable.Domain.{Build}
use buildkit_multipartable.Queue.{Queue, IsValid, task, full}
use buildkit_multipartable.Queue.Heap.{Task}
use buildkit_multipartable.Queue.Insert.{push-Cases}
use buildkit_multipartable.Service.{push_all}

-- The first `count` builds went into the queue, up to the first one that it refused.
pub record Filled (q : Queue) (bs : List Build) (q' : Queue) (count : ℕ) : Type 0 where
  pub valid : IsValid q'
  pub same : Perm q'.heap (map task (take count bs) ++ q.heap)
  pub kept : q'.max_len ≡ q.max_len
  pub few : count ≤ length bs
  pub stopped : (count ≡ length bs) ⊎ (full q' ≡ true)

pub push_all_fills :
    (q : Queue) (pushed : ℕ) (bs : List Build)
    → IsValid q
    → (q' : Queue) × (count : ℕ) × (push_all q pushed bs ≡ some (q', pushed + count))
      × Filled q bs q' count
unfolding push_all
push_all_fills q pushed [] v = (
  q,
  0,
  ap (λ n. some (q, n)) (omega arith),
  record { valid = v; same = Perm.refl q.heap; kept = refl; few = omega arith; stopped = inl refl },
)
push_all_fills q pushed (b ∷ bs) v = elim (push-Cases q b v) [
  | inl (no_room, run) ↦ (
    q,
    0,
    rw (run, push_all) (ap (λ n. some (q, n)) (omega arith)),
    record {
      valid = v;
      same = Perm.refl q.heap;
      kept = refl;
      few = omega arith;
      stopped = inr no_room;
    },
  )
  | inr (room, q1, run, p) ↦
      let (q', count, run', f) = push_all_fills q1 (suc pushed) bs p.valid in
      (
        q',
        suc count,
        rw (run, push_all) (rw run' (ap (λ n. some (q', n)) (omega arith))),
        record {
          valid = f.valid;
          same = Perm.trans f.same (
              Perm.trans (Perm.append_left (map task (take count bs)) p.same)
                (perm_middle (map task (take count bs)) q.heap));
          kept = f.kept ∙ p.kept;
          few = omega (arith, f.few);
          stopped = ground (arith, f.stopped);
        },
      )
]

-- A test that holds of all builds of a list holds of the tasks made from some of them.
pub tasks_pass :
    (test : Build → Bool) (count : ℕ) (bs : List Build) (t : Task)
    → All (λ b. test b ≡ true) bs
    → Mem t (map task (take count bs) ++ [])
    → test t.build ≡ true
tasks_pass test zero bs t a m = absurd (not-mem-nil m)
tasks_pass test (suc count) [] t a m = absurd (not-mem-nil m)
tasks_pass test (suc count) (b ∷ bs) t a m =
    Or.elim (Bool-set _ _) (mem-cons.0 m) (λ e. rw e (a.0)) (tasks_pass test count bs t a.1)
