-- ===== src/LogBroker/Examples.antt =====
-- Runs of logbroker.go.
use buildkit_multipartable.Base.{
  ◌++◌, map, ◌≢◌, false, ℕ, ◌≡◌, refl, true, [], ◌∷◌, Bytes, codes, some, List, ◌>>=◌,
}
use buildkit_multipartable.Strings.{split, trim_right_of}
use buildkit_multipartable.LogBroker.{
  unsubscribe_detach, unsubscribe_close, drop_line, events, existing_events, Subscriber, LogBroker,
  new_log_broker, subscribe, attach, subs_of, find_sub, update_sub, unsubscribe_mark, send,
  send_all, publish,
}
use buildkit_multipartable.LogBroker.Live.{is_live}
use buildkit_multipartable.LogBroker.Steps.{
  Running, started, moved, watching, marked, detached, closed, subscribes, marks, detaches, closes,
  here, next, publish_safe,
}
use buildkit_multipartable.LogBroker.Stream
use buildkit_multipartable.LogBroker.Order.{stream_in_order}

abbrev one : LogBroker
one = subscribe (codes "b") 1 new_log_broker

-- The second line goes to no one.
one_line :
    (publish (codes "b") (codes "x") one
      >>= (λ b. publish (codes "b") (codes "y") (unsubscribe_mark 1 b)))
    ≡ some (record {
      subs = (codes "b", 1 ∷ []) ∷ [];
      store = record { id = 1; lines = codes "x" ∷ []; closed = true; shut = false } ∷ [];
    })
unfolding publish subscribe unsubscribe_mark new_log_broker attach subs_of find_sub update_sub send
    send_all buildkit_multipartable.Base.Text.eqb
one_line = refl

-- Two viewers of a build, of which the first unsubscribes and closes its channel.
abbrev left : Running
left =
    moved 1 closed
      (unsubscribe_close 1
        (unsubscribe_detach (codes "b") 1 (unsubscribe_mark 1 (subscribe (codes "b") 2 one))))
      (moved 1 detached one (
        moved 1 (marked (codes "b")) one
          (moved 2 (watching (codes "b")) one (moved 1 (watching (codes "b")) one started))))

publish_safe_example :
    (store : List Subscriber) × (publish (codes "b") (codes "y") left.broker
      ≡ some (record left.broker { store = store }))
    × ((j : ℕ) → is_live store j ≡ is_live left.broker.store j)
unfolding find_sub new_log_broker subscribe
publish_safe_example = publish_safe {r = left} (codes "b") (codes "y") (
    next
      (next
        (next
          (next (next here (subscribes (codes "b") 1 refl refl))
            (subscribes (codes "b") 2 refl refl))
          (marks (codes "b") 1 refl))
        (detaches (codes "b") 1 refl))
      (closes 1 refl))

-- A viewer opens the stream of a build with a log, a line is posted, and the viewer receives it.
abbrev opened : Stream.Viewer
opened = Stream.open_stream (codes "b") 1 (codes "a") new_log_broker

abbrev posted : Stream.Viewer
posted = record opened {
  broker = record {
    subs = (codes "b", 1 ∷ []) ∷ [];
    store =
        record { id = 1; lines = (codes "x" ++ 10 ∷ []) ∷ []; closed = false; shut = false } ∷ [];
  };
}

abbrev delivered : Stream.Viewer
delivered = record {
  broker = one;
  written = existing_events (codes "a") ++ events (codes "x" ∷ []);
}

abbrev watched : Stream.Session (codes "b") 1 opened delivered ((codes "x" ++ 10 ∷ []) ∷ [])
unfolding publish subscribe new_log_broker attach subs_of find_sub update_sub send send_all
    buildkit_multipartable.Base.Text.eqb Stream.open_stream Stream.offered Stream.pending
    Stream.stream_round Stream.on_line drop_line trim_right_of existing_events events split
watched =
    Stream.next (Stream.next Stream.here (Stream.publishes (codes "b") (codes "x" ++ 10 ∷ []) refl))
      (Stream.receives refl)

stream_in_order_example :
    (delivered.written ++ events (map Stream.trimmed (Stream.pending 1 delivered.broker))
      ≡ existing_events (codes "a") ++ events (map Stream.trimmed ((codes "x" ++ 10 ∷ []) ∷ [])))
    × ((u : Stream.Viewer) → Stream.stream_round 1 delivered ≢ some (u, false))
unfolding find_sub new_log_broker
stream_in_order_example = stream_in_order (codes "b") 1 (codes "a") here refl watched
