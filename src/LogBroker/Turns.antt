-- ===== src/LogBroker/Turns.antt =====
-- What each turn of a stream does to what its viewer got.
use mathlib.Core.List.{append_assoc, append-nil}
use buildkit_multipartable.Base.{
  ℕ, ◌≡◌, refl, sym, ap, ◌∙◌, subst, true, false, List, [], ◌∷◌, ◌++◌, some, Bytes, map, eqb,
  eqb_iff, arith, Bool-cases, Option-cases, inl, inr, length, ltb, if◌then◌else◌, some_inj, codes,
}
use buildkit_multipartable.LogBroker.{
  drop_line, Subscriber, LogBroker, find_sub, update_sub, subscribe, unsubscribe_mark,
  unsubscribe_detach, unsubscribe_close, send_all, publish, events, existing_events, subs_of,
  add_line,
}
use buildkit_multipartable.LogBroker.Live.{drop_line-id}
use buildkit_multipartable.LogBroker.Live.{found_ne}
use buildkit_multipartable.LogBroker.Sends.{
  filled, find_sub-other, find_sub-update, find_sub-append, send_all-absent, send_all-once,
}
use buildkit_multipartable.LogBroker.Stream.{
  Viewer, trimmed, on_line, stream_round, pending, offered, Turn, publishes, receives, subscribes,
  marks, detaches, closes, others_receive,
}
use buildkit_multipartable.LogBroker.Places.{
  count, OnlyAt, OnlyAt-here, OnlyAt-elsewhere, attach-still, detach-still,
}

-- the events of lines from the channel
abbrev pub sent : List Bytes → Bytes
sent lines = events (map trimmed lines)

sent-append : (xs ys : List Bytes) → sent (xs ++ ys) ≡ sent xs ++ sent ys
unfolding events
sent-append [] ys = refl
sent-append (x ∷ xs) ys =
    ap (λ z. codes "data: " ++ (trimmed x ++ 10 ∷ 10 ∷ z)) (sent-append xs ys)
    ∙ ap (λ z. codes "data: " ++ z) (sym (append_assoc (trimmed x) (10 ∷ 10 ∷ sent xs) (sent ys)))

-- What holds of a stream: the subscriber is open, in the set of its build and no other, and the response
-- and the channel together have the log so far and then the lines.
abbrev pub Holds : Bytes → ℕ → Bytes → Viewer → List Bytes → Type 0
Holds build id logs v lines =
    (s : Subscriber) × (find_sub id v.broker.store ≡ some s)
    × (s.closed ≡ false)
    × (s.shut ≡ false)
    × OnlyAt build id v.broker.subs
    × (v.written ++ sent s.lines ≡ existing_events logs ++ sent lines)

-- A turn that leaves the subscriber alone.
steady :
    (build : Bytes) (id : ℕ) (logs : Bytes) (v : Viewer) (lines : List Bytes) (c : LogBroker)
    → find_sub id c.store ≡ find_sub id v.broker.store
    → OnlyAt build id c.subs
    → Holds build id logs v lines
    → Holds build id logs (record v { broker = c }) (lines ++ [])
steady build id logs v lines c same at_build (s, f, o, u, _, w) =
    (s, same ∙ f, o, u, at_build, rw (append-nil lines) w)

-- A turn that sends a line to the subscriber, if its channel has room.
fills :
    (build : Bytes) (id : ℕ) (logs line : Bytes) (v : Viewer) (lines : List Bytes) (c : LogBroker)
    (s : Subscriber)
    → s.closed ≡ false
    → s.shut ≡ false
    → find_sub id c.store ≡ some (filled line s)
    → OnlyAt build id c.subs
    → v.written ++ sent s.lines ≡ existing_events logs ++ sent lines
    → Holds build id logs
        (record v { broker = c })
        (lines ++ (if ltb (length s.lines) 64 then line ∷ [] else []))
fills build id logs line v lines c s o u f at_build w =
    elim (Bool-cases (ltb (length s.lines) 64)) [
      | inr h ↦ rw h (s, rw h at f, o, u, at_build, rw (append-nil lines) w)
      | inl h ↦ rw h (
        add_line line s,
        rw h at f,
        o,
        u,
        at_build,
        ap (λ l. v.written ++ l) (sent-append s.lines (line ∷ []))
            ∙ sym (append_assoc v.written (sent s.lines) (sent (line ∷ [])))
            ∙ ap (λ l. l ++ sent (line ∷ [])) w
            ∙ append_assoc (existing_events logs) (sent lines) (sent (line ∷ []))
            ∙ ap (λ l. existing_events logs ++ l) (sym (sent-append lines (line ∷ []))),
      )
    ]

publishes-Holds :
    (build : Bytes) (id : ℕ) (logs other line : Bytes) (v : Viewer) (lines : List Bytes)
    {c : LogBroker}
    → publish other line v.broker ≡ some c
    → Holds build id logs v lines
    → Holds build id logs (record v { broker = c }) (lines ++ offered build id v.broker other line)
unfolding publish offered pending
publishes-Holds build id logs other line v lines {c} e (s, f, o, u, at_build, w) =
    elim (Option-cases (send_all line (subs_of other v.broker.subs) v.broker.store)) [
      | inl h ↦ absurd (ground (arith, rw (h, publish) at e))
      | inr (store, h) ↦
          let c_is : record v.broker { store = store } ≡ c = some_inj (rw (h, publish) at e) in
          subst
            (λ x.
              Holds build id logs (record v { broker = x })
                (lines ++ offered build id v.broker other line))
            c_is
            (elim (Bool-cases (eqb other build)) [
              | inr d ↦ rw d (
                  steady build id logs v lines (record v.broker { store = store })
                    (send_all-absent line id (subs_of other v.broker.subs) v.broker.store
                      (OnlyAt-elsewhere build id other v.broker.subs d at_build) h)
                    at_build (s, f, o, u, at_build, w))
              | inl d ↦
                  rw (d, f, pending)
                    (fills build id logs line v lines (record v.broker { store = store }) s o u
                      (send_all-once line id (subs_of other v.broker.subs) v.broker.store s
                        (ap (λ k. count id (subs_of k v.broker.subs)) ((eqb_iff other build).0 d)
                          ∙ OnlyAt-here build id v.broker.subs at_build)
                        f o h)
                      at_build w)
            ])
    ]

-- A receive that goes on.
received :
    (id : ℕ) (v : Viewer) (s : Subscriber) (xs : List Bytes) {w : Viewer}
    → s.lines ≡ xs
    → s.shut ≡ false
    → on_line id v s ≡ some (w, true)
    → (l : Bytes) × (ls : List Bytes) × (s.lines ≡ l ∷ ls)
      × (record {
        broker = record v.broker { store = update_sub id drop_line v.broker.store };
        written = v.written ++ sent (l ∷ []);
      }
          ≡ w)
unfolding on_line
received id v s [] p u e = absurd (ground (arith, rw (p, u) at e))
received id v s (l ∷ ls) p u e = (l, ls, p, ap (λ x. x.0) (some_inj (rw p at e)))

drop_line-lines :
    (s : Subscriber) (l : Bytes) (ls : List Bytes)
    → s.lines ≡ l ∷ ls
    → drop_line s ≡ record s { lines = ls }
unfolding drop_line
drop_line-lines s l ls p = rw p

receives-Holds :
    (build : Bytes) (id : ℕ) (logs : Bytes) (v : Viewer) (lines : List Bytes) {w : Viewer}
    → stream_round id v ≡ some (w, true)
    → Holds build id logs v lines
    → Holds build id logs w (lines ++ [])
unfolding stream_round
receives-Holds build id logs v lines e (s, f, o, u, at_build, w) =
    let (l, ls, p, w_is) = received id v s s.lines refl u (rw (f, stream_round) at e) in
    subst (λ x. Holds build id logs x (lines ++ [])) w_is
      (
        record s { lines = ls },
        find_sub-update drop_line drop_line-id id v.broker.store s f
            ∙ ap some (drop_line-lines s l ls p),
        o,
        u,
        at_build,
        append_assoc v.written (sent (l ∷ [])) (sent ls)
            ∙ ap (λ z. v.written ++ z) (sym (sent-append (l ∷ []) ls))
            ∙ ap (λ z. v.written ++ sent z) (sym p)
            ∙ w
            ∙ ap (λ z. existing_events logs ++ sent z) (sym (append-nil lines)),
      )

pub Turn-Holds :
    (build : Bytes) (id : ℕ) (logs : Bytes) (v : Viewer) (lines : List Bytes) {w : Viewer}
    {more : List Bytes}
    → Turn build id v w more
    → Holds build id logs v lines
    → Holds build id logs w (lines ++ more)
unfolding subscribe unsubscribe_mark unsubscribe_detach unsubscribe_close drop_line
Turn-Holds build id logs v lines (publishes other line e) h =
    publishes-Holds build id logs other line v lines e h
Turn-Holds build id logs v lines (receives e) h = receives-Holds build id logs v lines e h
Turn-Holds build id logs v lines (subscribes other j fresh) h =
    steady build id logs v lines (subscribe other j v.broker)
      (find_sub-append id v.broker.store _ h.0 h.1 ∙ sym h.1)
      (attach-still build id j other v.broker.subs (found_ne j id v.broker.store h.0 fresh h.1) h.4)
      h
Turn-Holds build id logs v lines (marks j d) h =
    steady build id logs v lines (unsubscribe_mark j v.broker)
      (find_sub-other _ (λ s. refl) id j v.broker.store d) h.4 h
Turn-Holds build id logs v lines (detaches other j d) h =
    steady build id logs v lines (unsubscribe_detach other j v.broker) refl
      (detach-still build id j other v.broker.subs d h.4) h
Turn-Holds build id logs v lines (closes j d) h =
    steady build id logs v lines (unsubscribe_close j v.broker)
      (find_sub-other _ (λ s. refl) id j v.broker.store d) h.4 h
Turn-Holds build id logs v lines (others_receive j d) h =
    steady build id logs v lines _ (find_sub-other drop_line drop_line-id id j v.broker.store d) h.4
      h
