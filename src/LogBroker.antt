-- ===== src/LogBroker.antt =====
-- server/internal/api/logbroker.go. A subscriber is a pointer, here a number, to a channel of 64 lines.
-- The three statements of unsubscribe are three steps; publish runs under the lock that the map's writers
-- take, and is one step. `none` stands for a panic, a send on a closed channel.
pub mod Live
pub mod Sending
pub mod Steps
pub mod Stream
pub mod Places
pub mod Sends
pub mod Turns
pub mod Order
mod Examples
use buildkit_multipartable.Base.{
  ℕ, suc, ◌+◌, Bool, true, false, not, List, [], ◌∷◌, ◌++◌, Option, none, some, Bytes, codes, eqb,
  length, ltb, ◌==◌, if◌then◌else◌, ◌>>=◌, select,
}
use buildkit_multipartable.Strings.{split}

-- subscriber; `shut` says whether its channel was closed
pub record Subscriber : Type 0 where
  pub id : ℕ
  pub lines : List Bytes
  pub closed : Bool
  pub shut : Bool

-- the map from builds to sets of subscribers, and the subscribers
pub record LogBroker : Type 0 where
  pub subs : List (Bytes × List ℕ)
  pub store : List Subscriber

unfoldable pub new_log_broker : LogBroker
new_log_broker = record { subs = []; store = [] }

-- b.subs[buildID]
unfoldable pub subs_of : Bytes → List (Bytes × List ℕ) → List ℕ
subs_of build [] = []
subs_of build (e ∷ es) = if eqb e.0 build then e.1 else subs_of build es

-- b.subs[buildID][sub] = struct{}{}
unfoldable pub attach : Bytes → ℕ → List (Bytes × List ℕ) → List (Bytes × List ℕ)
attach build id [] = (build, id ∷ []) ∷ []
attach build id (e ∷ es) = if eqb e.0 build then (e.0, id ∷ e.1) ∷ es else e ∷ attach build id es

-- delete(m, sub), and the key if the set is empty
unfoldable pub detach : Bytes → ℕ → List (Bytes × List ℕ) → List (Bytes × List ℕ)
detach build id [] = []
detach build id (e ∷ es) =
    let rest = select (λ i. not (i == id)) e.1 in
    if eqb e.0 build
    then (if length rest == 0 then es else (e.0, rest) ∷ es)
    else e ∷ detach build id es

unfoldable pub find_sub : ℕ → List Subscriber → Option Subscriber
find_sub id [] = none
find_sub id (s ∷ ss) = if s.id == id then some s else find_sub id ss

unfoldable pub update_sub : ℕ → (Subscriber → Subscriber) → List Subscriber → List Subscriber
update_sub id f [] = []
update_sub id f (s ∷ ss) = if s.id == id then f s ∷ ss else s ∷ update_sub id f ss

-- subscribe, with the new pointer
unfoldable pub subscribe : Bytes → ℕ → LogBroker → LogBroker
subscribe build id b = record {
  subs = attach build id b.subs;
  store = b.store ++ record { id = id; lines = []; closed = false; shut = false } ∷ [];
}

abbrev pub close_sub : Subscriber → Subscriber
close_sub s = record s { closed = true }

abbrev pub shut_sub : Subscriber → Subscriber
shut_sub s = record s { shut = true }

abbrev pub add_line : Bytes → Subscriber → Subscriber
add_line line s = record s { lines = s.lines ++ line ∷ [] }

-- the channel without its first line
unfoldable pub drop_line : Subscriber → Subscriber
drop_line s = elim s.lines [ [] ↦ s | l ∷ ls ↦ record s { lines = ls } ]

-- unsubscribe: sub.closed.Store(true)
unfoldable pub unsubscribe_mark : ℕ → LogBroker → LogBroker
unsubscribe_mark id b = record b { store = update_sub id close_sub b.store }

-- unsubscribe: under the lock
unfoldable pub unsubscribe_detach : Bytes → ℕ → LogBroker → LogBroker
unsubscribe_detach build id b = record b { subs = detach build id b.subs }

-- unsubscribe: close(sub.ch)
unfoldable pub unsubscribe_close : ℕ → LogBroker → LogBroker
unsubscribe_close id b = record b { store = update_sub id shut_sub b.store }

-- one round of publish
unfoldable pub send : Bytes → Subscriber → List Subscriber → Option (List Subscriber)
send line s store =
    if s.closed
    then some store
    else if s.shut
    then none
    else if ltb (length s.lines) 64
    then some (update_sub s.id (add_line line) store)
    else some store

-- the loop of publish
unfoldable pub send_all : Bytes → List ℕ → List Subscriber → Option (List Subscriber)
send_all line [] store = some store
send_all line (i ∷ is) store = elim (find_sub i store) [
  | none ↦ none
  | some s ↦ elim (send line s store) [ none ↦ none | some store' ↦ send_all line is store' ]
]

unfoldable pub publish : Bytes → Bytes → LogBroker → Option LogBroker
publish build line b = do
  store ← send_all line (subs_of build b.subs) b.store
  some (record b { store = store })

-- streamSSE: the events for the log so far
unfoldable pub events : List Bytes → Bytes
events [] = []
events (l ∷ ls) = codes "data: " ++ (l ++ (10 ∷ 10 ∷ events ls))

unfoldable pub existing_events : Bytes → Bytes
unfolding events
existing_events logs = if eqb logs [] then [] else events (split logs 10)
