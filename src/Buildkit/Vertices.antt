-- ===== src/Buildkit/Vertices.antt =====
-- The vertices over a stream of messages.
use buildkit_multipartable.Base.{
  ℕ, suc, ◌+◌, ◌*◌, ◌≤◌, ◌≡◌, refl, ◌∙◌, ap, sym, pos, negsuc, true, false, List, [], ◌∷◌, ◌++◌,
  Bytes, eqb, length, length-append, arith, Bool-cases, Option-cases, inl, inr, ltb, ◌⊎◌,
}
use buildkit_multipartable.Domain.{Rate}
use buildkit_multipartable.Buildkit.{
  RawVertex, VertexInfo, Tracker, empty, find_vertex, get_vertex, mark, mark_in, Event, vertex, log,
  status, process, process_all, count_steps, cache_hit_rate,
}

-- The vertices are numbered from `n` on.
abbrev pub Numbered : ℕ → List VertexInfo → Type 0
Numbered n [] = Unit {0}
Numbered n (v ∷ vs) = (v.num ≡ n) × Numbered (n + 1) vs

-- The numbers are 1, 2, …, and the next one is free.
pub record IsNumbered (t : Tracker) : Type 0 where
  pub numbers : Numbered 1 t.vertices
  pub next : t.next_num ≡ length t.vertices + 1

append-Numbered :
    (n : ℕ) (vs : List VertexInfo) (v : VertexInfo)
    → Numbered n vs
    → v.num ≡ n + length vs
    → Numbered n (vs ++ v ∷ [])
append-Numbered n [] v h e = (omega (arith, e), tt)
append-Numbered n (w ∷ vs) v h e = (h.0, append-Numbered (n + 1) vs v h.1 (omega (arith, e)))

get_vertex-IsNumbered :
    (digest name : Bytes) (t : Tracker) → IsNumbered t → IsNumbered (get_vertex digest name t)
unfolding get_vertex
get_vertex-IsNumbered digest name t h = elim (Option-cases (find_vertex digest t.vertices)) [
  | inr (v, e) ↦ rw (e, get_vertex) h
  | inl e ↦
      rw (e, get_vertex)
        (record {
          numbers = append-Numbered 1 t.vertices _ h.numbers (omega (arith, h.next));
          next = omega (arith, h.next, length-append t.vertices (_ ∷ []));
        })
]

mark-num : (raw : RawVertex) (v : VertexInfo) → (mark raw v).num ≡ v.num
unfolding mark
mark-num raw v = ground arith

mark_in-Numbered :
    (raw : RawVertex) (n : ℕ) (vs : List VertexInfo) → Numbered n vs → Numbered n (mark_in raw vs)
unfolding mark_in
mark_in-Numbered raw n [] h = tt
mark_in-Numbered raw n (v ∷ vs) h = elim (Bool-cases (eqb v.digest raw.digest)) [
  | inl e ↦ rw e (mark-num raw v ∙ h.0, h.1)
  | inr e ↦ rw e (h.0, mark_in-Numbered raw (n + 1) vs h.1)
]

length-mark_in : (raw : RawVertex) (vs : List VertexInfo) → length (mark_in raw vs) ≡ length vs
unfolding mark_in
length-mark_in raw [] = refl
length-mark_in raw (v ∷ vs) = elim (Bool-cases (eqb v.digest raw.digest)) [
  | inl e ↦ rw e
  | inr e ↦ rw e (ap suc (length-mark_in raw vs))
]

process-IsNumbered : (e : Event) (t : Tracker) → IsNumbered t → IsNumbered (process e t)
unfolding process
process-IsNumbered (vertex raw) t h =
    let h' = get_vertex-IsNumbered raw.digest raw.name t h in
    record {
      numbers = mark_in-Numbered raw 1 _ h'.numbers;
      next = h'.next ∙ ap (λ n. n + 1) (sym (length-mark_in raw _));
    }
process-IsNumbered (log digest) t h = get_vertex-IsNumbered digest [] t h
process-IsNumbered (status digest true) t h = get_vertex-IsNumbered digest [] t h
process-IsNumbered (status digest false) t h = h

each_message : (es : List Event) (t : Tracker) → IsNumbered t → IsNumbered (process_all es t)
unfolding process_all
each_message [] t h = h
each_message (e ∷ es) t h = each_message es (process e t) (process-IsNumbered e t h)

-- Whatever messages come, the vertices have the numbers 1, 2, … in the order in which they first appear.
process_all-IsNumbered : (es : List Event) → IsNumbered (process_all es empty)
process_all-IsNumbered es = each_message es empty (record { numbers = tt; next = omega arith })

count_steps-le : (vs : List VertexInfo) → (count_steps vs).0 ≤ (count_steps vs).1
unfolding count_steps
count_steps-le [] = omega arith
count_steps-le (v ∷ vs) = ground (arith, count_steps-le vs)

abbrev pub IsPercentage : Rate → Type 0
IsPercentage r =
    (r ≡ record { num = negsuc 0; den = 1 })
    ⊎ ((n : ℕ) × (r.num ≡ pos n) × (1 ≤ r.den) × (n ≤ 100 * r.den))

-- The reported rate is -1 or a fraction from 0 to 100.
pub cache_hit_rate-IsPercentage : (vs : List VertexInfo) → IsPercentage (cache_hit_rate vs)
unfolding cache_hit_rate
cache_hit_rate-IsPercentage vs = elim (Bool-cases (ltb 0 (count_steps vs).1)) [
  | inr no_step ↦ rw no_step (inl refl)
  | inl some_step ↦
      let below = count_steps-le vs in
      rw some_step (inr ((count_steps vs).0 * 100, refl, ground arith, omega arith))
]
