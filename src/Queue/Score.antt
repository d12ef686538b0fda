-- ===== src/Queue/Score.antt =====
-- Queue.PeekByScore
use mathlib.Core.List.{mem-cons, not-mem-nil}
use mathlib.Core.Logic.Or
use buildkit_multipartable.Base.{
  ℕ, suc, ◌+◌, ◌<◌, ◌≡◌, refl, inl, inr, ◌⊎◌, true, false, some, none, List, [], ◌∷◌, Mem, arith,
  length, Bool-cases, ◌≤ℤ◌, ◌==◌, Float64,
}
use buildkit_multipartable.Domain.{Build}
use buildkit_multipartable.Queue.Slice
use buildkit_multipartable.Queue.Heap.{Task, blank, at}
use buildkit_multipartable.Queue.{Queue, combined, best_loop, peek_by_score, IsValid}
use buildkit_multipartable.Queue.Extract.{Bool-set, Removed, remove-Removed, root_highest}

module _ (fl : Float64) (score_fn : Build → fl.F) where
  open fl use {F, gt, lit}

  -- No task of the list has a combined score above `s`.
  abbrev pub NoneAbove : List Task → F → Type 0
  NoneAbove ts s = (t : Task) → Mem t ts → gt (combined fl score_fn t) s ≡ false

  NoneAbove-cons :
      (t : Task) (ts : List Task) (s : F)
      → gt (combined fl score_fn t) s ≡ false
      → NoneAbove ts s
      → NoneAbove (t ∷ ts) s
  NoneAbove-cons t ts s h hs u m = Or.elim (Bool-set _ _) (mem-cons.0 m) (λ e. rw e h) (hs u)

  not_above_greater : (c s : F) → gt s c ≡ true → gt c s ≡ false
  not_above_greater c s g = ground (arith, fl.gt_trans c s c, fl.gt_irrefl c)

  not_above_better : (c s b : F) → gt s b ≡ true → gt c b ≡ false → gt c s ≡ false
  not_above_better c s b g k = ground (arith, fl.gt_trans c s b)

  -- The loop keeps what it starts from, or ends at an entry above it; no entry is above the result.
  abbrev Scanned : List Task → ℕ → ℕ → F → ℕ × F → Type 0
  Scanned ts i best_idx best_score (r, s) =
      ((r ≡ best_idx) × (s ≡ best_score) × NoneAbove ts s)
      ⊎ ((k : ℕ) × (k < length ts)
          × (r ≡ i + k)
          × (s ≡ combined fl score_fn (at ts k))
          × (gt s best_score ≡ true)
          × NoneAbove ts s)

  best_loop_scans :
      (i best_idx : ℕ) (best_score : F) (ts : List Task)
      → Scanned ts i best_idx best_score (best_loop fl score_fn i best_idx best_score ts)
  unfolding best_loop Slice.entry
  best_loop_scans i best_idx best_score [] = inl (refl, refl, λ t m. absurd (not-mem-nil m))
  best_loop_scans i best_idx best_score (t ∷ ts) =
      let c = combined fl score_fn t in
      elim (Bool-cases (gt c best_score)) [
        | inl better ↦ rw better (elim (best_loop_scans (i + 1) i c ts) [
          | inl (e, f, rest) ↦ inr (
            0,
            omega arith,
            ground (arith, e),
            f,
            rw f better,
            NoneAbove-cons t ts _ (rw f (fl.gt_irrefl c)) rest,
          )
          | inr (k, p, e, f, g, rest) ↦ inr (
            suc k,
            omega arith,
            omega (arith, e),
            f,
            fl.gt_trans _ c best_score g better,
            NoneAbove-cons t ts _ (not_above_greater c _ g) rest,
          )
        ])
        | inr same ↦ rw same (elim (best_loop_scans (i + 1) best_idx best_score ts) [
          | inl (e, f, rest) ↦ inl (e, f, NoneAbove-cons t ts _ (rw f same) rest)
          | inr (k, p, e, f, g, rest) ↦ inr (
            suc k,
            omega arith,
            omega (arith, e),
            f,
            g,
            NoneAbove-cons t ts _ (not_above_better c _ best_score g same) rest,
          )
        ])
      ]

  -- How PeekByScore ends.
  abbrev pub Peeks : Queue → Type 0
  Peeks q =
      ((length q.heap ≡ 0) × (peek_by_score fl score_fn q ≡ some (q, none)))
      ⊎ ((q' : Queue) × (t : Task) × (peek_by_score fl score_fn q ≡ some (q', some t.build))
          × Removed q t q'
          × (NoneAbove q.heap (combined fl score_fn t)
              ⊎ (NoneAbove q.heap (lit 0 0)
                  × ((u : Task) → Mem u q.heap → u.build.priority ≤ℤ t.build.priority))))

  -- On a valid queue PeekByScore does not panic. An empty queue gives nothing. From any other comes one
  -- build, and a valid queue of the others is left; no queued build has a greater combined score, or
  -- else no combined score is above 0 and no queued build exceeds it in priority.
  pub peek_by_score_correct : (q : Queue) → IsValid q → Peeks q
  unfolding peek_by_score
  peek_by_score_correct q v = elim (Bool-cases (length q.heap == 0)) [
    | inl empty ↦ inl (ground arith, rw empty)
    | inr filled ↦ rw filled (
        inr (elim (best_loop_scans 0 0 (lit 0 0) q.heap) [
          | inl (e, f, rest) ↦
              let p : 0 < length q.heap = ground arith in
              let (g, run, removed) = remove-Removed q 0 v p in
              (
                record q { heap = g },
                at q.heap 0,
                rw (e, Slice.get_elem?-entry blank q.heap 0 p, run),
                removed,
                inr (rw f at rest, root_highest q v p),
              )
          | inr (k, p, e, f, g, rest) ↦
              let (g, run, removed) = remove-Removed q k v p in
              let found : (best_loop fl score_fn 0 0 (lit 0 0) q.heap).0 ≡ k = omega (arith, e) in
              (
                record q { heap = g },
                at q.heap k,
                rw (found, Slice.get_elem?-entry blank q.heap k p, run),
                removed,
                inl (rw f at rest),
              )
        ]))
  ]
