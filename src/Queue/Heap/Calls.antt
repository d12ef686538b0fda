-- ===== src/Queue/Heap/Calls.antt =====
-- heap.Push, heap.Pop and heap.Remove on a slice in heap order.
use mathlib.Core.List.Perm
use buildkit_multipartable.Base.{
  ℕ, suc, ◌+◌, ◌-◌, ◌*◌, ◌≤◌, ◌<◌, ◌≡◌, ◌∙◌, inl, inr, false, List, [], ◌∷◌, ◌++◌, Perm, some,
  arith, length, take, Bool-cases, ◌==◌, length-append, length-perm,
}
use buildkit_multipartable.Queue.Slice
use buildkit_multipartable.Queue.Heap.{
  Task, blank, parent, at, down_loop, down, push, pop, pop_last, take_out, remove, swap-some,
}
use buildkit_multipartable.Queue.Heap.Order.{IsHeap, Hole, Rearranged, Rearranged-refl}
use buildkit_multipartable.Queue.Heap.Up.{UpInv, up_raises}
use buildkit_multipartable.Queue.Heap.Down.{down_sinks}

-- With no child in range `down` leaves the slice alone.
down_at_end : (h : List Task) (i n : ℕ) → n ≤ 2 * i + 1 → down h i n ≡ some (h, false)
unfolding down down_loop
down_at_end h i n p = grind arith

abbrev pub IsOrdered : List Task → Type 0
IsOrdered h = IsHeap (length h) h

pub push_lem :
    (h : List Task) (x : Task)
    → IsOrdered h
    → (g : List Task) × (push h x ≡ some g) × IsOrdered g × Perm g (x ∷ h)
unfolding push
push_lem h x order =
    let size = length-append h (x ∷ []) in
    let (g, run, raised) =
      up_raises (length (h ++ x ∷ [])) (h ++ x ∷ []) (length (h ++ x ∷ []) - 1)
        (omega (arith, size)) (omega arith) start in
    (
      g,
      run,
      (λ c p q. raised.0 c p (rw (← length-perm raised.1.same) q)),
      Perm.trans raised.1.same (Slice.snoc-perm h x),
    )
  where
    start : UpInv (length (h ++ x ∷ [])) (h ++ x ∷ []) (length (h ++ x ∷ []) - 1)
    start = record {
      edges = λ c p q r. ground (
        arith,
        length-append h (x ∷ []),
        order c,
        Slice.entry-append blank h (x ∷ []) c,
        Slice.entry-append blank h (x ∷ []) (parent c),
      );
      bridged = λ c p q r s. absurd (omega (arith, length-append h (x ∷ [])));
    }

-- A call takes the task `x` out of the slice `h` and leaves the slice `g`.
pub record Taken (h g : List Task) (x : Task) : Type 0 where
  pub ordered : IsOrdered g
  pub same : Perm (x ∷ g) h

module _ (h : List Task) (n i : ℕ) (size : length h ≡ suc n) (hi : i < suc n) where
  abbrev moved_last : List Task
  moved_last = Slice.exchange blank h i n

  pop_last-Taken :
      (g : List Task)
      → IsHeap n g
      → Rearranged n moved_last g
      → (g' : List Task) × (pop_last g ≡ some (g', at h i)) × Taken h g' (at h i)
  unfolding pop_last
  pop_last-Taken g heap r =
      let same = Perm.trans r.same (Slice.exchange-perm blank h i n (omega arith) (omega arith)) in
      let full : length g ≡ suc n = length-perm same ∙ size in
      let filled : (length g == 0) ≡ false = ground arith in
      let before : length g - 1 ≡ n = omega arith in
      let last : at g n ≡ at h i =
        ground (arith, r.rest n, Slice.entry-exchange blank h i n n (omega arith) (omega arith)) in
      (
        take n g,
        rw (filled, before, Slice.get_elem?-entry blank g n (omega arith), last),
        record {
          ordered = λ c p q. ground (
            arith,
            Slice.length-take blank n g full,
            Slice.entry-take blank n g c,
            Slice.entry-take blank n g (parent c),
            heap c,
          );
          same = Perm.trans (rw last at (Slice.take-perm blank n g full)) same;
        },
      )

  moved_last-Hole : IsOrdered h → i < n → Hole n moved_last i
  moved_last-Hole order p =
      let moved = λ (c : ℕ). Slice.entry-exchange blank h i n c (omega arith) (omega arith) in
      record {
        edges = λ c q r t u. ground (arith, moved c, moved (parent c), order c);
        bridged = λ c q r t u. ground (arith, moved c, moved (parent i), order c, order i);
      }

pub pop_lem :
    (h : List Task)
    → IsOrdered h
    → 0 < length h
    → (g : List Task) × (pop h ≡ some (g, at h 0)) × Taken h g (at h 0)
unfolding pop
pop_lem h order p =
    let n = length h - 1 in
    let size : length h ≡ suc n = omega arith in
    let h1 = Slice.exchange blank h 0 n in
    let room : n ≤ length h1 = rw (Slice.length-exchange blank h 0 n) (omega arith) in
    let filled : (length h == 0) ≡ false = ground arith in
    rw (filled, swap-some h 0 n p (omega arith))
      (elim (Bool-cases (n == 0)) [
        | inl single ↦
            let (g, run, taken) =
              pop_last-Taken h n 0 size (omega arith) h1 (λ c q r. absurd (ground arith))
                (Rearranged-refl n h1) in
            (g, rw (down_at_end h1 0 n (ground arith)) run, taken)
        | inr several ↦
            let hole = moved_last-Hole h n 0 size (omega arith) order (ground arith) in
            let (h2, b, sunk, went, kept, r) = down_sinks n h1 0 (ground arith) room hole in
            let heap : IsHeap n h2 = elim (Bool-cases b) [
              | inl e ↦ went e
              | inr e ↦ (λ c q t. rw ((kept e).0) (ground (arith, hole.edges c, (kept e).1 c)))
            ] in
            let (g, run, taken) = pop_last-Taken h n 0 size (omega arith) h2 heap r in
            (g, rw sunk run, taken)
      ])

take_out_lem :
    (h : List Task) (n i : ℕ)
    → length h ≡ suc n
    → i < n
    → IsOrdered h
    → (g : List Task) × (take_out h i n ≡ some g)
      × IsHeap n g
      × Rearranged n (Slice.exchange blank h i n) g
unfolding take_out
take_out_lem h n i size p order =
    let h1 = Slice.exchange blank h i n in
    let room : n ≤ length h1 = rw (Slice.length-exchange blank h i n) (omega arith) in
    let hole = moved_last-Hole h n i size (omega arith) order p in
    let (h2, b, sunk, went, kept, r) = down_sinks n h1 i p room hole in
    rw (swap-some h i n (omega arith) (omega arith), sunk)
      (elim (Bool-cases b) [
        | inl e ↦ (h2, rw e, went e, r)
        | inr e ↦
            let (g, run, raised) = up_raises n h1 i p room (record {
              edges = λ c q t u. ground (arith, hole.edges c, (kept e).1 c);
              bridged = hole.bridged;
            }) in
            (g, rw (e, (kept e).0) run, raised.0, raised.1)
      ])

pub remove_lem :
    (h : List Task) (i : ℕ)
    → IsOrdered h
    → i < length h
    → (g : List Task) × (remove h i ≡ some (g, at h i)) × Taken h g (at h i)
unfolding remove
remove_lem h i order p =
    let n = length h - 1 in
    let size : length h ≡ suc n = omega arith in
    let filled : (length h == 0) ≡ false = ground arith in
    rw filled (elim (Bool-cases (n == i)) [
      | inl last ↦
          let (g, done, taken) =
            pop_last-Taken h n i size (omega arith) h (λ c q r. order c q (omega arith))
              (record {
                same = Perm.symm (Slice.exchange-perm blank h i n p (omega arith));
                rest = λ c q. ground (arith, Slice.entry-exchange blank h i n c p (omega arith));
              }) in
          (g, rw last done, taken)
      | inr inner ↦
          let (g, run, heap, r) = take_out_lem h n i size (ground arith) order in
          let (g', done, taken) = pop_last-Taken h n i size (omega arith) g heap r in
          (g', rw (inner, run) done, taken)
    ])
