-- ===== src/LogBroker/Stream.antt =====
-- The loop of streamSSE, and what else happens while it runs. The response takes every write.
use buildkit_multipartable.Base.{
  ℕ, ◌≡◌, Bool, true, false, List, [], ◌∷◌, ◌++◌, Option, none, some, Bytes, eqb, ◌&&◌, ◌==◌,
  length, ltb, if◌then◌else◌,
}
use buildkit_multipartable.Strings.{trim_right_of}
use buildkit_multipartable.LogBroker.{
  Subscriber, LogBroker, find_sub, update_sub, subscribe, unsubscribe_mark, unsubscribe_detach,
  unsubscribe_close, drop_line, publish, events, existing_events,
}

-- a handler of streamSSE: the broker, and what it wrote so far
pub record Viewer : Type 0 where
  pub broker : LogBroker
  pub written : Bytes

-- streamSSE before its loop, with the new pointer
unfoldable pub open_stream : Bytes → ℕ → Bytes → LogBroker → Viewer
open_stream build id logs b = record {
  broker = subscribe build id b;
  written = existing_events logs;
}

-- strings.TrimRight(line, "\n")
abbrev pub trimmed : Bytes → Bytes
trimmed = trim_right_of 10

-- `case line, ok := <-sub.ch`: `none` while it blocks, and whether the loop goes on
unfoldable pub on_line : ℕ → Viewer → Subscriber → Option (Viewer × Bool)
unfolding drop_line events
on_line id v s = elim s.lines [
  | [] ↦ if s.shut then some (v, false) else none
  | l ∷ ls ↦ some (
    record {
      broker = record v.broker { store = update_sub id drop_line v.broker.store };
      written = v.written ++ events (trimmed l ∷ []);
    },
    true,
  )
]

-- one round of the loop, while the request's context is open
unfoldable pub stream_round : ℕ → Viewer → Option (Viewer × Bool)
unfolding on_line
stream_round id v = elim (find_sub id v.broker.store) [ none ↦ none | some s ↦ on_line id v s ]

-- the lines in a channel
unfoldable pub pending : ℕ → LogBroker → List Bytes
pending id b = elim (find_sub id b.store) [ none ↦ [] | some s ↦ s.lines ]

-- what a viewer of `build` gets of a line that is published for `other`: nothing of a line for another
-- build, nor of one that finds 64 lines in the channel
unfoldable pub offered : Bytes → ℕ → LogBroker → Bytes → Bytes → List Bytes
unfolding pending
offered build id b other line =
    if eqb other build && ltb (length (pending id b)) 64 then line ∷ [] else []

-- What happens while a viewer with the pointer `id` streams `build`, with the lines it gets of it.
pub data Turn (build : Bytes) (id : ℕ) (v : Viewer) : Viewer → List Bytes → Type 0 where
  publishes :
      (other line : Bytes) {c : LogBroker}
      → publish other line v.broker ≡ some c
      → Turn build id v (record v { broker = c }) (offered build id v.broker other line)
  receives : {w : Viewer} → stream_round id v ≡ some (w, true) → Turn build id v w []
  subscribes :
      (other : Bytes) (j : ℕ)
      → find_sub j v.broker.store ≡ none
      → Turn build id v (record v { broker = subscribe other j v.broker }) []
  marks :
      (j : ℕ)
      → (j == id) ≡ false
      → Turn build id v (record v { broker = unsubscribe_mark j v.broker }) []
  detaches :
      (other : Bytes) (j : ℕ)
      → (j == id) ≡ false
      → Turn build id v (record v { broker = unsubscribe_detach other j v.broker }) []
  closes :
      (j : ℕ)
      → (j == id) ≡ false
      → Turn build id v (record v { broker = unsubscribe_close j v.broker }) []
  others_receive :
      (j : ℕ)
      → (j == id) ≡ false
      → Turn build id v
          (record v { broker = record v.broker { store = update_sub j drop_line v.broker.store } })
          []

-- The turns of a stream, with the lines the viewer gets, in order.
pub data Session (build : Bytes) (id : ℕ) (v : Viewer) : Viewer → List Bytes → Type 0 where
  here : Session build id v v []
  next :
      {w u : Viewer} {lines more : List Bytes}
      → Session build id v w lines
      → Turn build id w u more
      → Session build id v u (lines ++ more)
