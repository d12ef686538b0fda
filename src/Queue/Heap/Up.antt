-- ===== src/Queue/Heap/Up.antt =====
-- heap.up
use buildkit_multipartable.Base.{
  ℕ, zero, suc, ◌+◌, ◌≤◌, ◌<◌, ◌≡◌, ◌≢◌, List, some, arith, length, ◌≤ℤ◌, ◌==◌, Bool-cases, inl,
  inr, ltb_ℤ,
}
use buildkit_multipartable.Queue.Slice
use buildkit_multipartable.Queue.Heap.{
  Task, blank, parent, score, up_loop, up, less-some, swap-some,
}
use buildkit_multipartable.Queue.Heap.Order.{
  IsHeap, IsBridged, Rearranged, Rearranged-refl, Rearranged-exchange,
}

-- Only the edge above `j` may be out of order.
pub record UpInv (n : ℕ) (h : List Task) (j : ℕ) : Type 0 where
  pub edges : (c : ℕ) → 0 < c → c < n → c ≢ j → score h c ≤ℤ score h (parent c)
  pub bridged : IsBridged n h j

exchange-UpInv :
    (n : ℕ) (h : List Task) (j : ℕ)
    → j < n
    → n ≤ length h
    → 0 < j
    → UpInv n h j
    → score h (parent j) ≤ℤ score h j
    → UpInv n (Slice.exchange blank h (parent j) j) (parent j)
exchange-UpInv n h j p size pos v above =
    let exchanged = Slice.entry-exchange blank h (parent j) j in
    record {
      edges = λ c q r t. ground (
        arith,
        exchanged c (omega arith) (omega arith),
        exchanged (parent c) (omega arith) (omega arith),
        v.edges c,
        v.bridged c,
      );
      bridged = λ c q r t u. ground (
        arith,
        exchanged c (omega arith) (omega arith),
        exchanged (parent (parent j)) (omega arith) (omega arith),
        v.edges c,
        v.edges (parent j),
      );
    }

abbrev pub Raised : ℕ → List Task → List Task → Type 0
Raised n h g = IsHeap n g × Rearranged n h g

up_loop_raises :
    (k n : ℕ) (h : List Task) (j : ℕ)
    → j < k
    → j < n
    → n ≤ length h
    → UpInv n h j
    → (g : List Task) × (up_loop k h j ≡ some g) × Raised n h g
unfolding up_loop
up_loop_raises zero n h j f p size v = absurd (omega arith)
up_loop_raises (suc k) n h j f p size v = elim (Bool-cases (parent j == j)) [
  | inl root ↦ (h, rw root, ((λ c q r. v.edges c q r (ground arith)), Rearranged-refl n h))
  | inr inner ↦
      rw (inner, less-some h j (parent j) (omega arith) (omega arith))
        (elim (Bool-cases (ltb_ℤ (score h (parent j)) (score h j))) [
          | inl above ↦
              let (g, run, raised) =
                up_loop_raises k n (Slice.exchange blank h (parent j) j) (parent j) (ground arith)
                  (ground arith) (rw (Slice.length-exchange blank h (parent j) j) size)
                  (exchange-UpInv n h j p size (ground arith) v (ground arith)) in
              (
                g,
                rw (above, swap-some h (parent j) j (omega arith) (omega arith)) run,
                (raised.0, Rearranged-exchange n h g (parent j) j (ground arith) p size raised.1),
              )
          | inr settled ↦
              (h, rw settled, ((λ c q r. ground (arith, v.edges c)), Rearranged-refl n h))
        ])
]

-- `up` turns a slice with one entry too low into a heap of the same tasks.
pub up_raises :
    (n : ℕ) (h : List Task) (j : ℕ)
    → j < n
    → n ≤ length h
    → UpInv n h j
    → (g : List Task) × (up h j ≡ some g) × Raised n h g
unfolding up
up_raises n h j p size v = up_loop_raises (j + 1) n h j (omega arith) p size v
