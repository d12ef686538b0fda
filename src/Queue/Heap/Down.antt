-- ===== src/Queue/Heap/Down.antt =====
-- heap.down
use buildkit_multipartable.Base.{
  ℕ, zero, suc, ◌+◌, ◌*◌, ◌≤◌, ◌<◌, ◌≡◌, refl, ◌≢◌, ◌⊎◌, inl, inr, Bool, true, false, List, some,
  arith, length, ◌≤ℤ◌, Bool-cases, ltb, leb, ltb_ℤ,
}
use native.Mathlib.Decide.{ℕ_discrete}
use buildkit_multipartable.Queue.Slice
use buildkit_multipartable.Queue.Heap.{
  Task, blank, parent, score, larger_child, down_loop, down, less-some, swap-some,
}
use buildkit_multipartable.Queue.Heap.Order.{
  IsHeap, Hole, Below, Rearranged, Rearranged-refl, Rearranged-exchange,
}

-- `m` is a child of `i` that no child is above.
record IsLargerChild (n : ℕ) (h : List Task) (i m : ℕ) : Type 0 where
  inside : m < n
  child : (m ≡ 2 * i + 1) ⊎ (m ≡ 2 * i + 2)
  greatest : (c : ℕ) → 0 < c → c < n → parent c ≡ i → score h c ≤ℤ score h m

larger_child-IsLargerChild :
    (n : ℕ) (h : List Task) (i : ℕ)
    → n ≤ length h
    → 2 * i + 1 < n
    → (m : ℕ) × (larger_child h i n ≡ some m) × IsLargerChild n h i m
unfolding larger_child
larger_child-IsLargerChild n h i size p = elim (Bool-cases (ltb (2 * i + 1 + 1) n)) [
  | inl two ↦
      rw (two, less-some h (2 * i + 1 + 1) (2 * i + 1) (ground arith) (ground arith))
        (elim (Bool-cases (ltb_ℤ (score h (2 * i + 1)) (score h (2 * i + 1 + 1)))) [
          | inl right ↦ (
            2 * i + 1 + 1,
            rw right,
            record {
              inside = ground arith;
              child = inr (omega arith);
              greatest = λ c q r t. grind arith;
            },
          )
          | inr left ↦ (
            2 * i + 1,
            rw left,
            record { inside = p; child = inl refl; greatest = λ c q r t. grind arith },
          )
        ])
  | inr one ↦ (
    2 * i + 1,
    rw one,
    record { inside = p; child = inl refl; greatest = λ c q r t. grind arith },
  )
]

-- How the loop ends at `j` with the slice `g`, from the slice `h` and the index `i`.
pub record Sunk (n : ℕ) (h : List Task) (i : ℕ) (g : List Task) (j : ℕ) : Type 0 where
  pub within : i ≤ j
  pub stayed : j ≡ i → (g ≡ h) × Below n h i
  pub moved : j ≢ i → IsHeap n g
  pub arranged : Rearranged n h g

exchange-Hole :
    (n : ℕ) (h : List Task) (i m : ℕ)
    → i < n
    → n ≤ length h
    → Hole n h i
    → IsLargerChild n h i m
    → score h i ≤ℤ score h m
    → Hole n (Slice.exchange blank h i m) m
      × (score (Slice.exchange blank h i m) m ≤ℤ score (Slice.exchange blank h i m) (parent m))
exchange-Hole n h i m p size v s above =
    let at =
      λ (c : ℕ). Slice.entry-exchange blank h i m c (omega arith) (omega (arith, s.inside)) in
    (
      record {
        edges =
            λ c q r t u. ground (arith, at c, at (parent c), v.edges c, v.bridged m, s.greatest c);
        bridged = λ c q r t u. ground (arith, at c, at (parent m), v.edges c);
      },
      ground (arith, at m, at (parent m)),
    )

Sunk-step :
    (n : ℕ) (h : List Task) (i m : ℕ) (g : List Task) (j : ℕ)
    → i < m
    → m < n
    → n ≤ length h
    → Hole n (Slice.exchange blank h i m) m
    → score (Slice.exchange blank h i m) m ≤ℤ score (Slice.exchange blank h i m) (parent m)
    → Sunk n (Slice.exchange blank h i m) m g j
    → Sunk n h i g j
Sunk-step n h i m g j p q size v above s = record {
  within = omega (arith, s.within);
  stayed = λ e. absurd (omega (arith, s.within));
  moved = λ e c t u. elim (ℕ_discrete j m) [
    | yes same ↦ rw ((s.stayed same).0) (ground (arith, v.edges c, (s.stayed same).1 c))
    | no other ↦ s.moved other c t u
  ];
  arranged = Rearranged-exchange n h g i m (omega arith) q size s.arranged;
}

down_loop_sinks :
    (k n : ℕ) (h : List Task) (i : ℕ)
    → n < k + i
    → i < n
    → n ≤ length h
    → Hole n h i
    → (g : List Task) × (j : ℕ) × (down_loop k h i n ≡ some (g, j)) × Sunk n h i g j
unfolding down_loop
down_loop_sinks zero n h i f p size v = absurd (omega arith)
down_loop_sinks (suc k) n h i f p size v = elim (Bool-cases (leb n (2 * i + 1))) [
  | inl leaf ↦ (h, i, rw leaf, at_rest (λ c q r t. absurd (ground arith)))
  | inr inner ↦
      let (m, pick, s) = larger_child-IsLargerChild n h i size (ground arith) in
      rw (inner, pick, less-some h m i (omega (arith, s.inside)) (omega arith))
        (elim (Bool-cases (ltb_ℤ (score h i) (score h m))) [
          | inl below ↦
              let (v', above) = exchange-Hole n h i m p size v s (ground arith) in
              let (g, j, run, sunk) =
                down_loop_sinks k n (Slice.exchange blank h i m) m (omega (arith, s.child)) s.inside
                  (rw (Slice.length-exchange blank h i m) size) v' in
              (
                g,
                j,
                rw (below, swap-some h i m (omega arith) (omega (arith, s.inside))) run,
                Sunk-step n h i m g j (omega (arith, s.child)) s.inside size v' above sunk,
              )
          | inr settled ↦ (h, i, rw settled, at_rest (λ c q r t. ground (arith, s.greatest c)))
        ])
]
  where
    at_rest : Below n h i → Sunk n h i h i
    at_rest b = record {
      within = omega arith;
      stayed = λ _. (refl, b);
      moved = λ e. absurd (e refl);
      arranged = Rearranged-refl n h;
    }

-- `down` either makes a heap of the first `n` entries, or leaves the slice as it is, and then the
-- entry is in order with its children.
pub down_sinks :
    (n : ℕ) (h : List Task) (i : ℕ)
    → i < n
    → n ≤ length h
    → Hole n h i
    → (g : List Task) × (b : Bool) × (down h i n ≡ some (g, b))
      × (b ≡ true → IsHeap n g)
      × (b ≡ false → (g ≡ h) × Below n h i)
      × Rearranged n h g
unfolding down
down_sinks n h i p size v =
    let (g, j, run, s) = down_loop_sinks (n + 1) n h i (omega arith) p size v in
    (
      g,
      ltb i j,
      rw run,
      λ e. s.moved (ground arith),
      λ e. s.stayed (ground (arith, s.within)),
      s.arranged,
    )
