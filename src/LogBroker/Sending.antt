-- ===== src/LogBroker/Sending.antt =====
-- publish where every subscriber in the map has an open channel.
use buildkit_multipartable.Base.{
  ℕ, ◌≡◌, refl, ◌∙◌, true, false, List, [], ◌∷◌, Option, some, Bytes, All, Bool-cases, inl, inr,
  length, ltb,
}
use buildkit_multipartable.LogBroker.{
  Subscriber, LogBroker, subs_of, update_sub, send, send_all, publish, add_line,
}
use buildkit_multipartable.LogBroker.Live.{
  is_live, AllSubs, AllSubs-subs_of, AllSubs-map, is_live-update_sub, live_sub,
}

-- Every subscriber in the map has an open channel.
abbrev pub IsTidy : LogBroker → Type 0
IsTidy b = AllSubs (λ i. is_live b.store i ≡ true) b.subs

-- What a send leaves.
abbrev Sends : List Subscriber → Option (List Subscriber) → Type 0
Sends store o =
    (store' : List Subscriber) × (o ≡ some store') × ((j : ℕ) → is_live store' j ≡ is_live store j)

send-Sends :
    (line : Bytes) (s : Subscriber) (store : List Subscriber)
    → s.shut ≡ false
    → Sends store (send line s store)
unfolding send
send-Sends line s store h = elim (Bool-cases s.closed) [
  | inl e ↦ (store, rw e, λ j. refl)
  | inr e ↦ elim (Bool-cases (ltb (length s.lines) 64)) [
    | inr f ↦ (store, rw (e, h, f), λ j. refl)
    | inl f ↦ (
      update_sub s.id (add_line line) store,
      rw (e, h, f),
      λ j. is_live-update_sub (add_line line) (λ t. refl) (λ t. refl) s.id j store,
    )
  ]
]

still_live :
    (store store' : List Subscriber) (is : List ℕ)
    → ((j : ℕ) → is_live store' j ≡ is_live store j)
    → All (λ i. is_live store i ≡ true) is
    → All (λ i. is_live store' i ≡ true) is
still_live store store' [] same a = tt
still_live store store' (i ∷ is) same a = (same i ∙ a.0, still_live store store' is same a.1)

send_all-Sends :
    (line : Bytes) (is : List ℕ) (store : List Subscriber)
    → All (λ i. is_live store i ≡ true) is
    → Sends store (send_all line is store)
unfolding send_all
send_all-Sends line [] store a = (store, refl, λ j. refl)
send_all-Sends line (i ∷ is) store a =
    let (s, e, open_) = live_sub i store a.0 in
    let (store1, f, same1) = send-Sends line s store open_ in
    let (store2, g, same2) = send_all-Sends line is store1 (still_live store store1 is same1 a.1) in
    (store2, rw (e, f, send_all) g, λ j. same2 j ∙ same1 j)

pub publish-Sends :
    (build line : Bytes) (b : LogBroker)
    → IsTidy b
    → (store : List Subscriber) × (publish build line b ≡ some (record b { store = store }))
      × ((j : ℕ) → is_live store j ≡ is_live b.store j)
unfolding publish
publish-Sends build line b v =
    let (store, e, same) =
      send_all-Sends line (subs_of build b.subs) b.store (AllSubs-subs_of _ build b.subs v) in
    (store, rw e, same)

pub retidy :
    (b : LogBroker) (store : List Subscriber)
    → ((j : ℕ) → is_live store j ≡ is_live b.store j)
    → IsTidy b
    → IsTidy (record b { store = store })
retidy b store same v = AllSubs-map _ _ (λ i h. same i ∙ h) b.subs v
