-- ===== src/LogBroker/Steps.antt =====
-- The broker under any sequence of steps of its handlers.
use buildkit_multipartable.Base.{
  if◌then◌else◌, arith, ℕ, ◌≡◌, refl, ◌∙◌, sym, subst, true, false, List, [], ◌∷◌, none, some,
  Bytes, All, Bool-cases, inl, inr, ◌==◌, some_inj,
}
use buildkit_multipartable.LogBroker.{
  attach, detach, Subscriber, LogBroker, new_log_broker, find_sub, update_sub, subscribe,
  unsubscribe_mark, unsubscribe_detach, unsubscribe_close, publish, close_sub, shut_sub, drop_line,
}
use buildkit_multipartable.LogBroker.Live.{
  found_ne, is_live, AllSubs, attach-AllSubs, detach-AllSubs, AllSubs-map, is_live-update_sub,
  is_live-other, is_live-append, is_live-new, live_sub, drop_line-id, drop_line-shut,
}
use buildkit_multipartable.LogBroker.Sending.{IsTidy, publish-Sends, retidy}
use buildkit_multipartable.LogBroker.Places.{
  count, OnlyAt, Nowhere, attach-OnlyAt, attach-Nowhere, attach-still, detach-Nowhere, detach-still,
  detach-own, Nowhere-members,
}

-- Where the handler of a subscriber is: before subscribe, in the loop of streamSSE for a build, or after
-- one of the three statements of unsubscribe.
pub data Stage : Type 0 where
  absent detached closed : Stage
  watching marked : Bytes → Stage

pub record Running : Type 0 where
  pub broker : LogBroker
  pub stage : ℕ → Stage

abbrev pub started : Running
started = record { broker = new_log_broker; stage = λ id. absent }

-- The handler of the subscriber `id` goes on to `x`.
abbrev pub moved : ℕ → Stage → LogBroker → Running → Running
moved id x b r = record { broker = b; stage = λ j. if j == id then x else r.stage j }

-- The steps of all handlers. Each makes a fresh pointer, subscribes it to a build, receives, and then runs
-- the statements of unsubscribe for that build and pointer in their order; any handler publishes.
pub data Step (r : Running) : Running → Type 0 where
  subscribes :
      (build : Bytes) (id : ℕ)
      → r.stage id ≡ absent
      → find_sub id r.broker.store ≡ none
      → Step r (moved id (watching build) (subscribe build id r.broker) r)
  receives :
      (id : ℕ)
      → Step r
          (record r { broker = record r.broker { store = update_sub id drop_line r.broker.store } })
  marks :
      (build : Bytes) (id : ℕ)
      → r.stage id ≡ watching build
      → Step r (moved id (marked build) (unsubscribe_mark id r.broker) r)
  detaches :
      (build : Bytes) (id : ℕ)
      → r.stage id ≡ marked build
      → Step r (moved id detached (unsubscribe_detach build id r.broker) r)
  closes :
      (id : ℕ) → r.stage id ≡ detached → Step r (moved id closed (unsubscribe_close id r.broker) r)
  publishes :
      (build line : Bytes) {c : LogBroker}
      → publish build line r.broker ≡ some c
      → Step r (record r { broker = c })

pub data Reach (r : Running) : Running → Type 0 where
  here : Reach r r
  next : {s t : Running} → Reach r s → Step s t → Reach r t

-- Where the map has a subscriber whose handler is at a stage.
pub Placed : List (Bytes × List ℕ) → ℕ → Stage → Type 0
Placed subs id absent = Unit
Placed subs id (watching build) = OnlyAt build id subs
Placed subs id (marked build) = OnlyAt build id subs
Placed subs id detached = Nowhere id subs
Placed subs id closed = Nowhere id subs

pub record IsOrderly (r : Running) : Type 0 where
  pub tidy : IsTidy r.broker
  pub placed : (id : ℕ) → Placed r.broker.subs id (r.stage id)

pair_up :
    (b : LogBroker) (id : ℕ)
    → IsTidy b
    → AllSubs (λ i. (i == id) ≡ false) b.subs
    → IsTidy (unsubscribe_close id b)
unfolding unsubscribe_close
pair_up b id v out = entries b.subs v out
  where
    members :
        (is : List ℕ)
        → All (λ i. is_live b.store i ≡ true) is
        → All (λ i. (i == id) ≡ false) is
        → All (λ i. is_live (update_sub id shut_sub b.store) i ≡ true) is
    members [] a o = tt
    members (i ∷ is) a o =
        (is_live-other shut_sub (λ s. refl) id i b.store o.0 ∙ a.0, members is a.1 o.1)

    entries :
        (es : List (Bytes × List ℕ))
        → AllSubs (λ i. is_live b.store i ≡ true) es
        → AllSubs (λ i. (i == id) ≡ false) es
        → AllSubs (λ i. is_live (update_sub id shut_sub b.store) i ≡ true) es
    entries [] a o = tt
    entries (e ∷ es) a o = (members e.1 a.0 o.0, entries es a.1 o.1)

-- A new pointer is in no set of a tidy broker.
pub fresh-Nowhere :
    (id : ℕ) (b : LogBroker) → find_sub id b.store ≡ none → IsTidy b → Nowhere id b.subs
unfolding count
fresh-Nowhere id b n v = entries b.subs v
  where
    members : (is : List ℕ) → All (λ i. is_live b.store i ≡ true) is → count id is ≡ 0
    members [] a = refl
    members (i ∷ is) a =
        let (s, f, _) = live_sub i b.store a.0 in
        ground (arith, found_ne id i b.store s n f, members is a.1)

    entries :
        (es : List (Bytes × List ℕ)) → AllSubs (λ i. is_live b.store i ≡ true) es → Nowhere id es
    entries [] a = tt
    entries (e ∷ es) a = (members e.1 a.0, entries es a.1)

-- The other subscribers stay where they are.
attach-Placed :
    (build : Bytes) (id j : ℕ) (subs : List (Bytes × List ℕ)) (x : Stage)
    → (id == j) ≡ false
    → Placed subs j x
    → Placed (attach build id subs) j x
unfolding Placed
attach-Placed build id j subs absent d p = tt
attach-Placed build id j subs (watching k) d p = attach-still k j id build subs d p
attach-Placed build id j subs (marked k) d p = attach-still k j id build subs d p
attach-Placed build id j subs detached d p = attach-Nowhere j id build subs d p
attach-Placed build id j subs closed d p = attach-Nowhere j id build subs d p

detach-Placed :
    (build : Bytes) (id j : ℕ) (subs : List (Bytes × List ℕ)) (x : Stage)
    → (id == j) ≡ false
    → Placed subs j x
    → Placed (detach build id subs) j x
unfolding Placed
detach-Placed build id j subs absent d p = tt
detach-Placed build id j subs (watching k) d p = detach-still k j id build subs d p
detach-Placed build id j subs (marked k) d p = detach-still k j id build subs d p
detach-Placed build id j subs detached d p = detach-Nowhere j id build subs d p
detach-Placed build id j subs closed d p = detach-Nowhere j id build subs d p

-- One handler goes on.
moved-Placed :
    (r : Running) (id : ℕ) (x : Stage) (b : LogBroker)
    → Placed b.subs id x
    → ((j : ℕ) → (id == j) ≡ false → Placed b.subs j (r.stage j))
    → (j : ℕ) → Placed b.subs j ((moved id x b r).stage j)
moved-Placed r id x b p others j = elim (Bool-cases (j == id)) [
  | inl h ↦ let same : id ≡ j = ground arith in rw h (subst (λ i. Placed b.subs i x) same p)
  | inr h ↦ rw h (others j (ground arith))
]

pub at_stage :
    (r : Running) (id : ℕ) (x : Stage) → IsOrderly r → r.stage id ≡ x → Placed r.broker.subs id x
at_stage r id x v e = subst (Placed r.broker.subs id) e (v.placed id)

pub Step-IsOrderly : {r s : Running} → Step r s → IsOrderly r → IsOrderly s
unfolding subscribe unsubscribe_mark unsubscribe_detach unsubscribe_close Placed publish
Step-IsOrderly {r} (subscribes build id e fresh) v = record {
  tidy =
      attach-AllSubs _ build id r.broker.subs (is_live-new r.broker.store _ fresh refl)
        (AllSubs-map _ _ (λ i h. is_live-append r.broker.store _ i h) r.broker.subs v.tidy);
  placed =
      moved-Placed r id (watching build) (subscribe build id r.broker)
        (attach-OnlyAt build id r.broker.subs (fresh-Nowhere id r.broker fresh v.tidy))
        (λ j d. attach-Placed build id j r.broker.subs (r.stage j) d (v.placed j));
}
Step-IsOrderly {r} (receives id) v = record {
  tidy =
      retidy r.broker _
        (λ j. is_live-update_sub drop_line drop_line-id drop_line-shut id j r.broker.store) v.tidy;
  placed = v.placed;
}
Step-IsOrderly {r} (marks build id e) v = record {
  tidy =
      retidy r.broker _
        (λ j. is_live-update_sub close_sub (λ s. refl) (λ s. refl) id j r.broker.store) v.tidy;
  placed =
      moved-Placed r id (marked build) (unsubscribe_mark id r.broker)
        (at_stage r id (watching build) v e) (λ j d. v.placed j);
}
Step-IsOrderly {r} (detaches build id e) v = record {
  tidy = detach-AllSubs _ build id r.broker.subs v.tidy;
  placed =
      moved-Placed r id detached (unsubscribe_detach build id r.broker)
        (detach-own build id r.broker.subs (at_stage r id (marked build) v e))
        (λ j d. detach-Placed build id j r.broker.subs (r.stage j) d (v.placed j));
}
Step-IsOrderly {r} (closes id e) v =
    let out = at_stage r id detached v e in
    record {
      tidy = pair_up r.broker id v.tidy (Nowhere-members id r.broker.subs out);
      placed = moved-Placed r id closed (unsubscribe_close id r.broker) out (λ j d. v.placed j);
    }
Step-IsOrderly {r} (publishes build line {c} e) v =
    let (store, f, same) = publish-Sends build line r.broker v.tidy in
    subst (λ b. IsOrderly (record r { broker = b })) (some_inj (sym f ∙ e))
      (record { tidy = retidy r.broker store same v.tidy; placed = v.placed })

pub Reach-IsOrderly : {r s : Running} → IsOrderly r → Reach r s → IsOrderly s
Reach-IsOrderly v here = v
Reach-IsOrderly v (next r s) = Step-IsOrderly s (Reach-IsOrderly v r)

pub started-IsOrderly : IsOrderly started
unfolding new_log_broker Placed
started-IsOrderly = record { tidy = tt; placed = λ id. tt }

-- Whatever clients subscribe and unsubscribe, in any interleaving of the statements of their handlers,
-- publish never sends on a closed channel: it ends with the same subscribers, none of whose channels it
-- opens or closes.
pub publish_safe :
    {r : Running} (build line : Bytes)
    → Reach started r
    → (store : List Subscriber) × (publish build line r.broker
        ≡ some (record r.broker { store = store }))
      × ((j : ℕ) → is_live store j ≡ is_live r.broker.store j)
publish_safe {r} build line reach =
    publish-Sends build line r.broker (Reach-IsOrderly started-IsOrderly reach).tidy
