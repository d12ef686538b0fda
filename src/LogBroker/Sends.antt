-- ===== src/LogBroker/Sends.antt =====
-- What publish does to the channel of one subscriber.
use buildkit_multipartable.Base.{
  ℕ, ◌≡◌, refl, sym, ap, ◌∙◌, subst, true, false, List, [], ◌∷◌, ◌++◌, none, some, Bytes, arith,
  Bool-cases, Option-cases, inl, inr, ◌==◌, length, ltb, if◌then◌else◌, some_inj,
}
use buildkit_multipartable.LogBroker.{Subscriber, find_sub, update_sub, send, send_all, add_line}
use buildkit_multipartable.LogBroker.Places.{count}

-- An update of another subscriber.
pub find_sub-other :
    (f : Subscriber → Subscriber)
    → ((s : Subscriber) → (f s).id ≡ s.id)
    → (id j : ℕ) (store : List Subscriber) → (j == id) ≡ false
    → find_sub id (update_sub j f store) ≡ find_sub id store
unfolding find_sub update_sub
find_sub-other f keeps id j [] d = refl
find_sub-other f keeps id j (s ∷ ss) d = ground (arith, keeps s, find_sub-other f keeps id j ss d)

pub find_sub-update :
    (f : Subscriber → Subscriber)
    → ((s : Subscriber) → (f s).id ≡ s.id)
    → (id : ℕ) (store : List Subscriber) (s : Subscriber) → find_sub id store ≡ some s
    → find_sub id (update_sub id f store) ≡ some (f s)
unfolding find_sub update_sub
find_sub-update f keeps id [] s h = absurd (ground arith)
find_sub-update f keeps id (t ∷ ts) s h = ground (arith, keeps t, find_sub-update f keeps id ts s)

pub find_sub-append :
    (id : ℕ) (store : List Subscriber) (t s : Subscriber)
    → find_sub id store ≡ some s
    → find_sub id (store ++ t ∷ []) ≡ some s
unfolding find_sub
find_sub-append id [] t s h = absurd (ground arith)
find_sub-append id (u ∷ us) t s h = ground (arith, find_sub-append id us t s)

pub find_sub-new :
    (store : List Subscriber) (s : Subscriber)
    → find_sub s.id store ≡ none
    → find_sub s.id (store ++ s ∷ []) ≡ some s
unfolding find_sub
find_sub-new [] s h = ground arith
find_sub-new (t ∷ ts) s h = ground (arith, find_sub-new ts s)

pub find_sub-id :
    (id : ℕ) (store : List Subscriber) (s : Subscriber) → find_sub id store ≡ some s → s.id ≡ id
unfolding find_sub
find_sub-id id [] s h = absurd (ground arith)
find_sub-id id (t ∷ ts) s h = ground (arith, find_sub-id id ts s)

-- a channel after a line was sent to it
abbrev pub filled : Bytes → Subscriber → Subscriber
filled line s = if ltb (length s.lines) 64 then add_line line s else s

-- A send to another subscriber.
send-other :
    (line : Bytes) (id : ℕ) (t : Subscriber) (store : List Subscriber) {store' : List Subscriber}
    → (t.id == id) ≡ false
    → send line t store ≡ some store'
    → find_sub id store' ≡ find_sub id store
unfolding send
send-other line id t store d e = elim (Bool-cases t.closed) [
  | inl h ↦ ground (arith, h)
  | inr h ↦ ground (arith, h, find_sub-other (add_line line) (λ u. refl) id t.id store d)
]

-- A send to the subscriber.
send-same :
    (line : Bytes) (s : Subscriber) (store : List Subscriber) {store' : List Subscriber}
    → s.closed ≡ false
    → find_sub s.id store ≡ some s
    → send line s store ≡ some store'
    → find_sub s.id store' ≡ some (filled line s)
unfolding send
send-same line s store o f e =
    ground (arith, o, find_sub-update (add_line line) (λ u. refl) s.id store s f)

-- A round of the loop of publish that goes through.
send_all-round :
    (line : Bytes) (i : ℕ) (is : List ℕ) (store : List Subscriber) {store' : List Subscriber}
    → send_all line (i ∷ is) store ≡ some store'
    → (t : Subscriber) × (store1 : List Subscriber) × (find_sub i store ≡ some t)
      × (send line t store ≡ some store1)
      × (send_all line is store1 ≡ some store')
unfolding send_all
send_all-round line i is store e = elim (Option-cases (find_sub i store)) [
  | inl f ↦ absurd (ground (arith, rw (f, send_all) at e))
  | inr (t, f) ↦ elim (Option-cases (send line t store)) [
    | inl g ↦ absurd (ground (arith, rw (f, g, send_all) at e))
    | inr (store1, g) ↦ (t, store1, f, g, rw (f, g, send_all) at e)
  ]
]

pub send_all-absent :
    (line : Bytes) (id : ℕ) (is : List ℕ) (store : List Subscriber) {store' : List Subscriber}
    → count id is ≡ 0
    → send_all line is store ≡ some store'
    → find_sub id store' ≡ find_sub id store
unfolding send_all count
send_all-absent line id [] store c e = ap (find_sub id) (sym (some_inj e))
send_all-absent line id (i ∷ is) store c e =
    let (t, store1, f, g, h) = send_all-round line i is store e in
    send_all-absent line id is store1 (ground arith) h
    ∙ send-other line id t store (ground (arith, find_sub-id i store t f)) g

-- The send to the subscriber, found by its pointer.
send-found :
    (line : Bytes) (id i : ℕ) (t s : Subscriber) (store : List Subscriber)
    {store' : List Subscriber}
    → (i == id) ≡ true
    → find_sub i store ≡ some t
    → find_sub id store ≡ some s
    → s.closed ≡ false
    → send line t store ≡ some store'
    → find_sub id store' ≡ some (filled line s)
send-found line id i t s store {store'} q f k o g =
    let at_id = find_sub-id id store s k in
    let i_id : i ≡ id = ground arith in
    let t_s : t ≡ s = some_inj (sym f ∙ ap (λ x. find_sub x store) i_id ∙ k) in
    subst (λ x. find_sub x store' ≡ some (filled line s)) at_id
      (send-same line s store o (subst (λ x. find_sub x store ≡ some s) (sym at_id) k)
        (subst (λ u. send line u store ≡ some store') t_s g))

pub send_all-once :
    (line : Bytes) (id : ℕ) (is : List ℕ) (store : List Subscriber) (s : Subscriber)
    {store' : List Subscriber}
    → count id is ≡ 1
    → find_sub id store ≡ some s
    → s.closed ≡ false
    → send_all line is store ≡ some store'
    → find_sub id store' ≡ some (filled line s)
unfolding send_all count
send_all-once line id [] store s c k o e = absurd (ground arith)
send_all-once line id (i ∷ is) store s c k o e =
    let (t, store1, f, g, h) = send_all-round line i is store e in
    elim (Bool-cases (i == id)) [
      | inl q ↦
          send_all-absent line id is store1 (ground arith) h
          ∙ send-found line id i t s store q f k o g
      | inr q ↦
          send_all-once line id is store1 s (ground arith)
            (send-other line id t store (ground (arith, find_sub-id i store t f)) g ∙ k) o h
    ]
