-- ===== src/LogBroker/Places.antt =====
-- Where a subscriber stands in the map from builds to subscribers.
use buildkit_multipartable.Base.{
  ℕ, ◌+◌, ◌≡◌, refl, sym, ◌∙◌, eqb_iff, eqb_refl, true, false, not, List, [], ◌∷◌, Bytes, eqb,
  arith, All, Bool-cases, inl, inr, select, ◌==◌, length, if◌then◌else◌,
}
use buildkit_multipartable.LogBroker.{subs_of, attach, detach}
use buildkit_multipartable.LogBroker.Live.{AllSubs}

-- how often a subscriber is in a set
unfoldable pub count : ℕ → List ℕ → ℕ
count id [] = 0
count id (i ∷ is) = (if i == id then 1 else 0) + count id is

-- No set has the subscriber.
abbrev pub Nowhere : ℕ → List (Bytes × List ℕ) → Type 0
Nowhere id = All (λ e. count id e.1 ≡ 0)

-- The set of the build, and no other, has the subscriber.
unfoldable pub OnlyAt : Bytes → ℕ → List (Bytes × List ℕ) → Type 0
OnlyAt build id [] = true ≡ false
OnlyAt build id (e ∷ es) =
    if eqb e.0 build
    then (count id e.1 ≡ 1) × Nowhere id es
    else (count id e.1 ≡ 0) × OnlyAt build id es

pub count-select :
    (id j : ℕ) (is : List ℕ)
    → (j == id) ≡ false
    → count id (select (λ i. not (i == j)) is) ≡ count id is
unfolding count
count-select id j [] h = refl
count-select id j (i ∷ is) h = ground (arith, count-select id j is h)

pub Nowhere-subs_of :
    (id : ℕ) (k : Bytes) (es : List (Bytes × List ℕ)) → Nowhere id es → count id (subs_of k es) ≡ 0
unfolding subs_of count
Nowhere-subs_of id k [] n = refl
Nowhere-subs_of id k (e ∷ es) n = elim (Bool-cases (eqb e.0 k)) [
  | inl h ↦ rw (h, subs_of) n.0
  | inr h ↦ rw (h, subs_of) (Nowhere-subs_of id k es n.1)
]

pub OnlyAt-here :
    (build : Bytes) (id : ℕ) (es : List (Bytes × List ℕ))
    → OnlyAt build id es
    → count id (subs_of build es) ≡ 1
unfolding OnlyAt subs_of
OnlyAt-here build id [] o = absurd (ground arith)
OnlyAt-here build id (e ∷ es) o = elim (Bool-cases (eqb e.0 build)) [
  | inl h ↦ rw (h, subs_of) (rw (h, OnlyAt) at o).0
  | inr h ↦ rw (h, subs_of) (OnlyAt-here build id es (rw (h, OnlyAt) at o).1)
]

pub OnlyAt-elsewhere :
    (build : Bytes) (id : ℕ) (k : Bytes) (es : List (Bytes × List ℕ))
    → eqb k build ≡ false
    → OnlyAt build id es
    → count id (subs_of k es) ≡ 0
unfolding OnlyAt subs_of
OnlyAt-elsewhere build id k [] d o = absurd (ground arith)
OnlyAt-elsewhere build id k (e ∷ es) d o = elim (Bool-cases (eqb e.0 build)) [
  | inl h ↦ elim (Bool-cases (eqb e.0 k)) [
    | inl g ↦
        absurd
          (ground (arith, sym ((eqb_iff e.0 k).0 g) ∙ (eqb_iff e.0 build).0 h, eqb_iff k build))
    | inr g ↦ rw (g, subs_of) (Nowhere-subs_of id k es (rw (h, OnlyAt) at o).1)
  ]
  | inr h ↦ elim (Bool-cases (eqb e.0 k)) [
    | inl g ↦ rw (g, subs_of) (rw (h, OnlyAt) at o).0
    | inr g ↦ rw (g, subs_of) (OnlyAt-elsewhere build id k es d (rw (h, OnlyAt) at o).1)
  ]
]

pub attach-Nowhere :
    (id j : ℕ) (k : Bytes) (es : List (Bytes × List ℕ))
    → (j == id) ≡ false
    → Nowhere id es
    → Nowhere id (attach k j es)
unfolding attach count
attach-Nowhere id j k [] d n = (ground arith, tt)
attach-Nowhere id j k (e ∷ es) d n = elim (Bool-cases (eqb e.0 k)) [
  | inl h ↦ rw (h, attach) (ground (arith, n.0), n.1)
  | inr h ↦ rw (h, attach) (n.0, attach-Nowhere id j k es d n.1)
]

-- A new subscriber is in the set of its build only.
pub attach-OnlyAt :
    (build : Bytes) (id : ℕ) (es : List (Bytes × List ℕ))
    → Nowhere id es
    → OnlyAt build id (attach build id es)
unfolding attach count OnlyAt
attach-OnlyAt build id [] n = rw (eqb_refl build) (ground arith, tt)
attach-OnlyAt build id (e ∷ es) n = elim (Bool-cases (eqb e.0 build)) [
  | inl h ↦ rw (h, attach, h) (ground (arith, n.0), n.1)
  | inr h ↦ rw (h, attach, h) (n.0, attach-OnlyAt build id es n.1)
]

pub attach-still :
    (build : Bytes) (id j : ℕ) (k : Bytes) (es : List (Bytes × List ℕ))
    → (j == id) ≡ false
    → OnlyAt build id es
    → OnlyAt build id (attach k j es)
unfolding attach count OnlyAt
attach-still build id j k [] d o = absurd (ground arith)
attach-still build id j k (e ∷ es) d o = elim (Bool-cases (eqb e.0 build)) [
  | inl h ↦
      let (one, none_) = rw (h, OnlyAt) at o in
      elim (Bool-cases (eqb e.0 k)) [
        | inl g ↦ rw (g, attach, h) (ground (arith, one), none_)
        | inr g ↦ rw (g, attach, h) (one, attach-Nowhere id j k es d none_)
      ]
  | inr h ↦
      let (zero_, rest) = rw (h, OnlyAt) at o in
      elim (Bool-cases (eqb e.0 k)) [
        | inl g ↦ rw (g, attach, h) (ground (arith, zero_), rest)
        | inr g ↦ rw (g, attach, h) (zero_, attach-still build id j k es d rest)
      ]
]

pub detach-Nowhere :
    (id j : ℕ) (k : Bytes) (es : List (Bytes × List ℕ))
    → (j == id) ≡ false
    → Nowhere id es
    → Nowhere id (detach k j es)
unfolding detach
detach-Nowhere id j k [] d n = tt
detach-Nowhere id j k (e ∷ es) d n =
    let rest = select (λ i. not (i == j)) e.1 in
    elim (Bool-cases (eqb e.0 k)) [
      | inr h ↦ rw (h, detach) (n.0, detach-Nowhere id j k es d n.1)
      | inl h ↦ elim (Bool-cases (length rest == 0)) [
        | inl g ↦ rw (h, g, detach) n.1
        | inr g ↦ rw (h, g, detach) (count-select id j e.1 d ∙ n.0, n.1)
      ]
    ]

-- Once it is taken out of the set of its build, the subscriber is in no set.
select-gone : (id : ℕ) (is : List ℕ) → count id (select (λ i. not (i == id)) is) ≡ 0
unfolding count
select-gone id [] = refl
select-gone id (i ∷ is) = ground (arith, select-gone id is)

pub detach-own :
    (build : Bytes) (id : ℕ) (es : List (Bytes × List ℕ))
    → OnlyAt build id es
    → Nowhere id (detach build id es)
unfolding detach OnlyAt
detach-own build id [] o = absurd (ground arith)
detach-own build id (e ∷ es) o =
    let rest = select (λ i. not (i == id)) e.1 in
    elim (Bool-cases (eqb e.0 build)) [
      | inl h ↦
          let (one, none_) = rw (h, OnlyAt) at o in
          elim (Bool-cases (length rest == 0)) [
            | inl g ↦ rw (h, g, detach) none_
            | inr g ↦ rw (h, g, detach) (select-gone id e.1, none_)
          ]
      | inr h ↦
          let (zero_, tail) = rw (h, OnlyAt) at o in
          rw (h, detach) (zero_, detach-own build id es tail)
    ]

-- A subscriber in no set differs from all that are in one.
pub Nowhere-members :
    (id : ℕ) (es : List (Bytes × List ℕ)) → Nowhere id es → AllSubs (λ i. (i == id) ≡ false) es
unfolding count
Nowhere-members id [] n = tt
Nowhere-members id (e ∷ es) n = (members e.1 n.0, Nowhere-members id es n.1)
  where
    members : (is : List ℕ) → count id is ≡ 0 → All (λ i. (i == id) ≡ false) is
    members [] h = tt
    members (i ∷ is) h = (ground arith, members is (ground arith))

-- A set with the subscriber is not empty.
not_empty : (id : ℕ) (is : List ℕ) → count id is ≡ 1 → (length is == 0) ≡ false
unfolding count
not_empty id [] h = absurd (ground arith)
not_empty id (i ∷ is) h = ground arith

pub detach-still :
    (build : Bytes) (id j : ℕ) (k : Bytes) (es : List (Bytes × List ℕ))
    → (j == id) ≡ false
    → OnlyAt build id es
    → OnlyAt build id (detach k j es)
unfolding detach OnlyAt
detach-still build id j k [] d o = absurd (ground arith)
detach-still build id j k (e ∷ es) d o =
    let rest = select (λ i. not (i == j)) e.1 in
    let same = count-select id j e.1 d in
    elim (Bool-cases (eqb e.0 build)) [
      | inl h ↦
          let (one, none_) = rw (h, OnlyAt) at o in
          elim (Bool-cases (eqb e.0 k)) [
            | inl g ↦ rw (g, not_empty id rest (same ∙ one), detach, h) (same ∙ one, none_)
            | inr g ↦ rw (g, detach, h) (one, detach-Nowhere id j k es d none_)
          ]
      | inr h ↦
          let (zero_, tail) = rw (h, OnlyAt) at o in
          elim (Bool-cases (eqb e.0 k)) [
            | inr g ↦ rw (g, detach, h) (zero_, detach-still build id j k es d tail)
            | inl g ↦ elim (Bool-cases (length rest == 0)) [
              | inl f ↦ rw (g, f, detach) tail
              | inr f ↦ rw (g, f, detach, h) (same ∙ zero_, tail)
            ]
          ]
    ]
