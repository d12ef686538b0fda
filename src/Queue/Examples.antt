-- ===== src/Queue/Examples.antt =====
-- Tests and instances for queue.go.
use buildkit_multipartable.Base.{
  ℕ, ◌+◌, ◌*◌, ◌/◌, ◌^◌, ◌≡◌, refl, ℤ, pos, pos_part, negsuc, List, [], ◌∷◌, some, none, map, true,
  false, arith, ltb, codes, Bytes, Float64, Option, Bool,
}
use buildkit_multipartable.Domain.{Build, pending}
use buildkit_multipartable.Queue.Heap
use buildkit_multipartable.Queue.Heap.{Task, blank_build}
use buildkit_multipartable.Queue
use buildkit_multipartable.Queue.{Queue, task, IsValid, push, pop, remove, peek_by_score}
use buildkit_multipartable.Queue.Slice
use buildkit_multipartable.Queue.Insert.{ℤ-set, Pushes, push_correct}
use buildkit_multipartable.Queue.Extract.{Pops, pop_correct, Removes, remove_correct}
use buildkit_multipartable.Queue.Score.{Peeks, peek_by_score_correct}

abbrev pub build_of : Bytes → ℤ → Build
build_of id priority = record blank_build { id = id; status = pending; priority = priority }

abbrev low : Build
low = build_of (codes "low") (negsuc 1)

abbrev mid : Build
mid = build_of (codes "mid") (pos 3)

abbrev high : Build
high = build_of (codes "high") (pos 7)

abbrev sample : Queue
sample = record { heap = task high ∷ task low ∷ task mid ∷ []; max_len = pos 4 }

pub ltb_irrefl : (x : ℕ) → ltb x x ≡ false
ltb_irrefl x = ground arith

pub ltb_trans : (x y z : ℕ) → ltb y x ≡ true → ltb z y ≡ true → ltb z x ≡ true
ltb_trans x y z h k = ground arith

-- Decimals with three places, below zero cut off.
abbrev pub thousandths : Float64
thousandths = record {
  F = ℕ;
  of_int = λ z. pos_part z * 1000;
  lit = λ n d. n * 1000 / 10 ^ d;
  add = λ x y. x + y;
  mul = λ x y. x * y / 1000;
  div = λ x y. x * 1000 / y;
  gt = λ x y. ltb y x;
  gt_irrefl = ltb_irrefl;
  gt_trans = ltb_trans;
}

-- Only `low` has its layers cached.
abbrev cached_low : Build → ℕ
cached_low b = elim b.priority [ pos n ↦ 0 | negsuc n ↦ 900 ]

pushed_in_order :
    Heap.push (task mid ∷ task low ∷ []) (task high) ≡ some (task high ∷ task low ∷ task mid ∷ [])
unfolding Heap.push Heap.up
pushed_in_order = refl

popped : pop sample ≡ some (record sample { heap = task mid ∷ task low ∷ [] }, some high)
unfolding pop Heap.pop Heap.down Heap.pop_last
popped = refl

removed_by_id :
    remove sample (codes "low")
    ≡ some (record sample { heap = task high ∷ task mid ∷ [] }, some low)
unfolding remove Queue.index_of Heap.remove Heap.take_out Heap.up Heap.down Heap.pop_last
    buildkit_multipartable.Base.Text.eqb
removed_by_id = refl

-- 0.5 * 7 is below 10 * 0.9.
peeked_by_score :
    peek_by_score thousandths cached_low sample
    ≡ some (record sample { heap = task high ∷ task mid ∷ [] }, some low)
unfolding peek_by_score Queue.best_loop Queue.combined Heap.remove Heap.take_out Heap.up Heap.down
    Heap.pop_last
peeked_by_score = refl

sample-IsValid : IsValid sample
unfolding Slice.entry
sample-IsValid = record {
  ordered = grind arith;
  scored =
      Slice.All-mem (λ t. t.score ≡ t.build.priority) sample.heap (λ t. ℤ-set _ _)
        (refl, (refl, (refl, tt)));
  bounded = omega arith;
}

push_correct_example : Pushes sample mid
push_correct_example = push_correct sample mid sample-IsValid

pop_correct_example : Pops sample
pop_correct_example = pop_correct sample sample-IsValid

remove_correct_example : Removes sample (codes "mid")
remove_correct_example = remove_correct sample (codes "mid") sample-IsValid

peek_by_score_correct_example : Peeks thousandths cached_low sample
peek_by_score_correct_example = peek_by_score_correct thousandths cached_low sample sample-IsValid
