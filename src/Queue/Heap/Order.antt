-- ===== src/Queue/Heap/Order.antt =====
-- The heap order on the first `n` entries of the slice.
use mathlib.Core.List.Perm
use buildkit_multipartable.Base.{
  ℕ, zero, suc, ◌≤◌, ◌<◌, ◌≡◌, refl, ◌≢◌, List, Perm, arith, length, ◌≤ℤ◌,
}
use buildkit_multipartable.Queue.Slice
use buildkit_multipartable.Queue.Heap.{Task, blank, parent, at, score}

-- No entry is above its parent.
abbrev pub IsHeap : ℕ → List Task → Type 0
IsHeap n h = (c : ℕ) → 0 < c → c < n → score h c ≤ℤ score h (parent c)

-- Past `i`, from its parent to its children, the order holds.
abbrev pub IsBridged : ℕ → List Task → ℕ → Type 0
IsBridged n h i = (c : ℕ) → 0 < c → c < n → parent c ≡ i → 0 < i → score h c ≤ℤ score h (parent i)

-- Only the edges at `i` may be out of order.
pub record Hole (n : ℕ) (h : List Task) (i : ℕ) : Type 0 where
  pub edges : (c : ℕ) → 0 < c → c < n → c ≢ i → parent c ≢ i → score h c ≤ℤ score h (parent c)
  pub bridged : IsBridged n h i

-- The edges from `i` down are in order.
abbrev pub Below : ℕ → List Task → ℕ → Type 0
Below n h i = (c : ℕ) → 0 < c → c < n → parent c ≡ i → score h c ≤ℤ score h i

-- `g` holds the tasks of `h`, those past `n` at their places.
pub record Rearranged (n : ℕ) (h g : List Task) : Type 0 where
  pub same : Perm g h
  pub rest : (c : ℕ) → n ≤ c → at g c ≡ at h c

pub Rearranged-refl : (n : ℕ) (h : List Task) → Rearranged n h h
Rearranged-refl n h = record { same = Perm.refl h; rest = λ c _. refl }

pub Rearranged-exchange :
    (n : ℕ) (h g : List Task) (i j : ℕ)
    → i < n
    → j < n
    → n ≤ length h
    → Rearranged n (Slice.exchange blank h i j) g
    → Rearranged n h g
Rearranged-exchange n h g i j hi hj size r = record {
  same = Perm.trans r.same (Slice.exchange-perm blank h i j (omega arith) (omega arith));
  rest = λ c p.
      ground (arith, r.rest c, Slice.entry-exchange blank h i j c (omega arith) (omega arith));
}

root_greatest_below :
    (k n : ℕ) (h : List Task) (i : ℕ) → IsHeap n h → i < k → i < n → score h i ≤ℤ score h 0
root_greatest_below zero n h i order f p = absurd (omega arith)
root_greatest_below (suc k) n h i order f p =
    ground (arith, order i, root_greatest_below k n h (parent i) order)

-- The first entry of a heap has the highest score.
pub root_greatest : (n : ℕ) (h : List Task) (i : ℕ) → IsHeap n h → i < n → score h i ≤ℤ score h 0
root_greatest n h i order p = root_greatest_below (suc i) n h i order (omega arith) p
