-- ===== src/LogBroker/Live.antt =====
-- Subscribers whose channel is open.
use buildkit_multipartable.Base.{
  sym, ap, ◌∙◌, ℕ, ◌≡◌, refl, Bool, true, false, not, List, [], ◌∷◌, ◌++◌, none, some, Bytes, eqb,
  arith, All, Bool-cases, Option-cases, inl, inr, select, ◌==◌, length,
}
use buildkit_multipartable.LogBroker.{
  Subscriber, subs_of, attach, detach, find_sub, update_sub, drop_line,
}

-- the subscriber exists, and its channel is open
pub is_live : List Subscriber → ℕ → Bool
is_live store id = elim (find_sub id store) [ none ↦ false | some s ↦ not s.shut ]

-- All subscribers in the map satisfy `P`.
abbrev pub AllSubs : (ℕ → Type 0) → List (Bytes × List ℕ) → Type 0
AllSubs P = All (λ e. All P e.1)

pub AllSubs-subs_of :
    (P : ℕ → Type 0) (build : Bytes) (subs : List (Bytes × List ℕ))
    → AllSubs P subs
    → All P (subs_of build subs)
unfolding subs_of
AllSubs-subs_of P build [] a = tt
AllSubs-subs_of P build (e ∷ es) a = elim (Bool-cases (eqb e.0 build)) [
  | inl h ↦ rw (h, subs_of) a.0
  | inr h ↦ rw (h, subs_of) (AllSubs-subs_of P build es a.1)
]

pub attach-AllSubs :
    (P : ℕ → Type 0) (build : Bytes) (id : ℕ) (subs : List (Bytes × List ℕ))
    → P id
    → AllSubs P subs
    → AllSubs P (attach build id subs)
unfolding attach
attach-AllSubs P build id [] p a = ((p, tt), tt)
attach-AllSubs P build id (e ∷ es) p a = elim (Bool-cases (eqb e.0 build)) [
  | inl h ↦ rw (h, attach) ((p, a.0), a.1)
  | inr h ↦ rw (h, attach) (a.0, attach-AllSubs P build id es p a.1)
]

select-All : (P : ℕ → Type 0) (q : ℕ → Bool) (xs : List ℕ) → All P xs → All P (select q xs)
select-All P q [] a = tt
select-All P q (x ∷ xs) a = elim (Bool-cases (q x)) [
  | inl h ↦ rw (h, select) (a.0, select-All P q xs a.1)
  | inr h ↦ rw (h, select) (select-All P q xs a.1)
]

pub detach-AllSubs :
    (P : ℕ → Type 0) (build : Bytes) (id : ℕ) (subs : List (Bytes × List ℕ))
    → AllSubs P subs
    → AllSubs P (detach build id subs)
unfolding detach
detach-AllSubs P build id [] a = tt
detach-AllSubs P build id (e ∷ es) a =
    let rest = select (λ i. not (i == id)) e.1 in
    elim (Bool-cases (eqb e.0 build)) [
      | inr h ↦ rw (h, detach) (a.0, detach-AllSubs P build id es a.1)
      | inl h ↦ elim (Bool-cases (length rest == 0)) [
        | inl k ↦ rw (h, k, detach) a.1
        | inr k ↦ rw (h, k, detach) (select-All P (λ i. not (i == id)) e.1 a.0, a.1)
      ]
    ]

pub AllSubs-map :
    (P Q : ℕ → Type 0)
    → ((i : ℕ) → P i → Q i)
    → (subs : List (Bytes × List ℕ)) → AllSubs P subs
    → AllSubs Q subs
AllSubs-map P Q f [] a = tt
AllSubs-map P Q f (e ∷ es) a = (one e.1 a.0, AllSubs-map P Q f es a.1)
  where
    one : (is : List ℕ) → All P is → All Q is
    one [] a = tt
    one (i ∷ is) a = (f i a.0, one is a.1)

-- An update that leaves the id and the channel's state alone.
pub is_live-update_sub :
    (f : Subscriber → Subscriber)
    → ((s : Subscriber) → (f s).id ≡ s.id)
    → ((s : Subscriber) → (f s).shut ≡ s.shut)
    → (id j : ℕ) (store : List Subscriber) → is_live (update_sub id f store) j ≡ is_live store j
unfolding is_live find_sub update_sub
is_live-update_sub f keeps same id j [] = refl
is_live-update_sub f keeps same id j (s ∷ ss) =
    ground (arith, keeps s, same s, is_live-update_sub f keeps same id j ss)

-- Any update of another subscriber that keeps the id.
pub is_live-other :
    (f : Subscriber → Subscriber)
    → ((s : Subscriber) → (f s).id ≡ s.id)
    → (id j : ℕ) (store : List Subscriber) → (j == id) ≡ false
    → is_live (update_sub id f store) j ≡ is_live store j
unfolding is_live find_sub update_sub
is_live-other f keeps id j [] h = refl
is_live-other f keeps id j (s ∷ ss) h = ground (arith, keeps s, is_live-other f keeps id j ss h)

pub is_live-append :
    (store : List Subscriber) (s : Subscriber) (j : ℕ)
    → is_live store j ≡ true
    → is_live (store ++ s ∷ []) j ≡ true
unfolding is_live find_sub
is_live-append [] s j h = cc
is_live-append (t ∷ ts) s j h = ground (arith, is_live-append ts s j)

pub is_live-new :
    (store : List Subscriber) (s : Subscriber)
    → find_sub s.id store ≡ none
    → s.shut ≡ false
    → is_live (store ++ s ∷ []) s.id ≡ true
unfolding is_live find_sub
is_live-new [] s e h = ground (arith, h)
is_live-new (t ∷ ts) s e h = ground (arith, is_live-new ts s)

pub live_sub :
    (id : ℕ) (store : List Subscriber)
    → is_live store id ≡ true
    → (s : Subscriber) × (find_sub id store ≡ some s) × (s.shut ≡ false)
unfolding is_live
live_sub id store h = elim (Option-cases (find_sub id store)) [
  | inl e ↦ absurd (ground (arith, e, h))
  | inr (s, e) ↦ (s, e, ground (arith, e, h))
]

pub drop_line-id : (s : Subscriber) → (drop_line s).id ≡ s.id
unfolding drop_line
drop_line-id s = go s.lines refl
  where
    go : (xs : List Bytes) → s.lines ≡ xs → (drop_line s).id ≡ s.id
    go [] p = rw p refl
    go (l ∷ ls) p = rw p refl

pub drop_line-shut : (s : Subscriber) → (drop_line s).shut ≡ s.shut
unfolding drop_line
drop_line-shut s = go s.lines refl
  where
    go : (xs : List Bytes) → s.lines ≡ xs → (drop_line s).shut ≡ s.shut
    go [] p = rw p refl
    go (l ∷ ls) p = rw p refl

pub found_ne :
    (j id : ℕ) (store : List Subscriber) (s : Subscriber)
    → find_sub j store ≡ none
    → find_sub id store ≡ some s
    → (j == id) ≡ false
found_ne j id store s n f = elim (Bool-cases (j == id)) [
  | inr d ↦ d
  | inl d ↦
      let same : j ≡ id = ground arith in
      absurd (ground (arith, sym n ∙ ap (λ x. find_sub x store) same ∙ f))
]
