-- ===== src/LogBroker/Order.antt =====
-- What streamSSE writes over all its turns.
use buildkit_multipartable.Base.{
  ℕ, ◌≡◌, ◌≢◌, refl, false, List, [], ◌∷◌, ◌++◌, none, some, Bytes, map, arith,
}
use buildkit_multipartable.LogBroker.{
  Subscriber, LogBroker, find_sub, subscribe, events, existing_events,
}
use buildkit_multipartable.LogBroker.Sends.{find_sub-new}
use buildkit_multipartable.LogBroker.Sending.{IsTidy}
use buildkit_multipartable.LogBroker.Steps.{
  Running, started, Reach, Reach-IsOrderly, started-IsOrderly, fresh-Nowhere,
}
use buildkit_multipartable.LogBroker.Stream.{
  Viewer, open_stream, trimmed, on_line, stream_round, pending, Session, here, next,
}
use buildkit_multipartable.LogBroker.Places.{attach-OnlyAt}
use buildkit_multipartable.LogBroker.Turns.{Holds, Turn-Holds}

Session-Holds :
    (build : Bytes) (id : ℕ) (logs : Bytes) {v w : Viewer} {lines : List Bytes}
    → Holds build id logs v []
    → Session build id v w lines
    → Holds build id logs w lines
Session-Holds build id logs h here = h
Session-Holds build id logs h (next {w} {u} {lines} {more} r t) =
    Turn-Holds build id logs w lines t (Session-Holds build id logs h r)

open_stream-Holds :
    (build : Bytes) (id : ℕ) (logs : Bytes) (b : LogBroker)
    → find_sub id b.store ≡ none
    → IsTidy b
    → Holds build id logs (open_stream build id logs b) []
unfolding open_stream subscribe events
open_stream-Holds build id logs b n v = (
  record { id = id; lines = []; closed = false; shut = false },
  find_sub-new b.store _ n,
  refl,
  refl,
  attach-OnlyAt build id b.subs (fresh-Nowhere id b n v),
  refl,
)

-- A stream with an open channel goes on.
goes_on :
    (id : ℕ) (v u : Viewer) (s : Subscriber) (xs : List Bytes)
    → s.lines ≡ xs
    → find_sub id v.broker.store ≡ some s
    → s.shut ≡ false
    → stream_round id v ≢ some (u, false)
unfolding stream_round on_line
goes_on id v u s [] p f o e = absurd (ground (arith, rw (f, stream_round, p, o) at e))
goes_on id v u s (l ∷ ls) p f o e = absurd (ground (arith, rw (f, stream_round, p) at e))

-- While streamSSE runs for a new subscriber of a broker that calls of its handlers made, and whatever is
-- published, received, subscribed and unsubscribed meanwhile by others, what it wrote and what its channel
-- still holds are together the log so far and then the lines that were published for its build, each once
-- and in order, without those that found 64 lines in the channel; and the loop does not end by itself.
pub stream_in_order :
    {r : Running} {w : Viewer} {lines : List Bytes} (build : Bytes) (id : ℕ) (logs : Bytes)
    → Reach started r
    → find_sub id r.broker.store ≡ none
    → Session build id (open_stream build id logs r.broker) w lines
    → (w.written ++ events (map trimmed (pending id w.broker))
        ≡ existing_events logs ++ events (map trimmed lines))
      × ((u : Viewer) → stream_round id w ≢ some (u, false))
unfolding pending
stream_in_order {r} {w} build id logs reach n session =
    let (s, f, o, u, at_build, e) =
      Session-Holds build id logs
        (open_stream-Holds build id logs r.broker n (Reach-IsOrderly started-IsOrderly reach).tidy)
        session in
    (rw (f, pending) e, λ v. goes_on id w v s s.lines refl f u)
