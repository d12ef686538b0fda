-- ===== src/Api/Sound.antt =====
-- A server keeps its invariants over all its requests and ticks.
use buildkit_multipartable.Base.{
  Option, none, true, ℕ, ◌-◌, ◌≡◌, refl, ap, sym, ◌∙◌, some_inj, subst, pos, Bool, some, Bytes,
  Result, ok, err, List,
}
use buildkit_multipartable.Domain.{Build}
use buildkit_multipartable.Queue
use buildkit_multipartable.Queue.Insert.{new-IsValid}
use buildkit_multipartable.Repo
use buildkit_multipartable.Repo.{Db, list_pending}
use buildkit_multipartable.Repo.Steps as Tables
use buildkit_multipartable.Repo.Steps.{is_report}
use buildkit_multipartable.Repo.Shape.{IsWellFormed}
use buildkit_multipartable.Scheduler
use buildkit_multipartable.Scheduler.Shape.{new-IsShaped}
use buildkit_multipartable.Service.{State, Failure, warm_queue}
use buildkit_multipartable.Service.Sound.{IsSound, with_db, leaves}
use buildkit_multipartable.Service.Finish.{warm_queue_correct, Warms}
use buildkit_multipartable.Service.Steps as Calls
use buildkit_multipartable.Service.Steps.{Step-IsSound}
use buildkit_multipartable.LogBroker.{new_log_broker}
use buildkit_multipartable.LogBroker.Steps as Logs
use buildkit_multipartable.Api
use buildkit_multipartable.Api.{manual_gc, wall_clock, CompleteRequest}
use buildkit_multipartable.Api.Server.{Server, new_server, on_worker_tick, on_gc_tick, append_log}
use buildkit_multipartable.Api.Serves.{
  Process, Reported, AllReported, Step, begins, finishes, gets_next, completes, cancels, heartbeats,
  cleans, appends, streams, worker_ticks, gc_ticks, Reach, here, next, get_next_build-Leaves,
  complete_build-IsSound, cancel_build-Leaves, worker_heartbeat-IsSound, IsServing,
  published-Serves,
}

-- What appendLog leaves.
abbrev pub Appends : Bool → ℕ → Bytes → Bytes → Process → Type 0
Appends up now id body p =
    (t : Server) × (append_log up now id body p.server
      ≡ some (t, (Api.append_log up now id body p.server.state).1))
    × IsServing (record p { server = t })

append_log-Appends :
    (up : Bool) (now : ℕ) (id body : Bytes) (p : Process) → IsServing p → Appends up now id body p
unfolding append_log Api.append_log
append_log-Appends up now id body p (v, b) =
    published-Serves id body p.server.broker p.stage (Api.append_log up now id body p.server.state)
      (Step-IsSound (Calls.logs up now id body) tt v) b

Reported-request :
    (p : Process) (up up2 up3 : Bool) (now : ℕ) (id : Bytes) (req : Option CompleteRequest)
    → Reported {p = p} (completes up up2 up3 now id req)
    → (r : CompleteRequest) → req ≡ some r
    → is_report r.status ≡ true
Reported-request p up up2 up3 now id none h r e = cc
Reported-request p up up2 up3 now id (some q) h r e =
    subst (λ x. is_report x.status ≡ true) (some_inj e) h

Step-IsServing : {p q : Process} (step : Step p q) → Reported step → IsServing p → IsServing q
unfolding on_worker_tick on_gc_tick manual_gc
Step-IsServing (begins sha256 uuid up now sub) h (v, b) =
    (Step-IsSound (Calls.begins sha256 uuid up now sub) tt v, b)
Step-IsServing (finishes up now build r e) h (v, b) =
    (Step-IsSound (Calls.finishes up now build r e) tt v, b)
Step-IsServing {p} (gets_next fl up up2 now worker_id r e) h (v, b) =
    (leaves (get_next_build-Leaves p.server.state v fl up up2 now worker_id) e, b)
Step-IsServing {p} (completes up up2 up3 now id req) h (v, b) = (
  complete_build-IsSound p.server.state v up up2 up3 now id req
      (Reported-request p up up2 up3 now id req h),
  b,
)
Step-IsServing {p} (cancels up up2 now id r e) h (v, b) =
    (leaves (cancel_build-Leaves p.server.state v up up2 now id) e, b)
Step-IsServing {p} (heartbeats up now w) h (v, b) =
    (worker_heartbeat-IsSound p.server.state v up now w, b)
Step-IsServing {p} (cleans up zone now) h (v, b) =
    (with_db p.server.state v (Tables.expires up (wall_clock zone (now - 3600))) tt, b)
Step-IsServing {p} (appends up now id body {t} r e) h s =
    let (t', e', s') = append_log-Appends up now id body p s in
    subst (λ x. IsServing (record p { server = x })) (ap (λ x. x.0) (some_inj (sym e' ∙ e))) s'
Step-IsServing (streams step) h (v, b) = (v, Logs.Step-IsOrderly step b)
Step-IsServing (worker_ticks up up2 up3 now) h (v, b) = (
  Step-IsSound (Calls.reassigns up2 up3 now 60 600) tt (Step-IsSound (Calls.prunes up now 30) tt v),
  b,
)
Step-IsServing (gc_ticks up zone now) h (v, b) =
    (Step-IsSound (Calls.collects up (wall_clock zone (now - 86400))) tt v, b)

Reach-IsServing : {p q : Process} → IsServing p → (r : Reach p q) → AllReported r → IsServing q
Reach-IsServing v here h = v
Reach-IsServing v (next r step) h = Step-IsServing step h.1 (Reach-IsServing v r h.0)

warmed :
    (up : Bool) (s : State) (r : Result Repo.Error (List Build))
    → Warms up s r
    → (p : State × Result Failure ℕ) × (warm_queue up s ≡ some p)
warmed up s (err e) h = (_, h)
warmed up s (ok builds) (q, count, h, _) = (_, h)

-- a server without log streams
abbrev pub quiet : Server → Process
quiet srv = record { server = srv; stage = λ id. Logs.absent }

-- the server that NewServer makes, if it ends
abbrev pub start_of : Bool → Db → Server
start_of up db = elim (new_server up db) [
  | some srv ↦ srv
  | none ↦ record {
    state = record { db = db; queue = Queue.new (pos 10000); scheduler = Scheduler.new };
    broker = new_log_broker;
  }
]

new_server_starts :
    (up : Bool) (db : Db)
    → IsWellFormed db
    → (new_server up db ≡ some (start_of up db)) × IsServing (quiet (start_of up db))
unfolding new_server
new_server_starts up db w =
    let fresh : State = record {
      db = db;
      queue = Queue.new (pos 10000);
      scheduler = Scheduler.new;
    } in
    let sound : IsSound fresh = record {
      queue = new-IsValid (pos 10000);
      db = w;
      scheduler = new-IsShaped;
    } in
    let ((s, r), e) =
      warmed up fresh (list_pending up db) (warm_queue_correct up fresh sound.queue) in
    let run : new_server up db ≡ some (record { state = s; broker = new_log_broker }) = rw e refl in
    let serving : IsServing (quiet (record { state = s; broker = new_log_broker })) =
      (Step-IsSound (Calls.warms up r e) tt sound, Logs.started-IsOrderly) in
    subst
      (λ o.
        (o
          ≡ some (elim o [
            | some srv ↦ srv
            | none ↦ record { state = fresh; broker = new_log_broker }
          ]))
        × IsServing (
            quiet (elim o [
              | some srv ↦ srv
              | none ↦ record { state = fresh; broker = new_log_broker }
            ])))
      (sym run) (refl, serving)

-- On the tables of an earlier run NewServer does not panic. Then, whatever requests come and whenever the
-- tickers fire, in any order, with any failures of the database and with SubmitBuild as two steps between
-- which others may come, if every completion has a terminal status, building or none, the queue is a heap
-- within its bound, the tables are well-formed, the scheduler's ring is in order, and every viewer in the
-- log broker's map has an open channel; and an appendLog that comes next does not panic when it
-- publishes, and leaves all this in order.
pub server_serves :
    {p : Process} (up up' : Bool) (db : Db) (now : ℕ) (id body : Bytes) (w : IsWellFormed db)
    (reach : Reach (quiet (start_of up db)) p)
    → AllReported reach
    → (new_server up db ≡ some (start_of up db)) × IsServing p × Appends up' now id body p
server_serves {p} up up' db now id body w reach reported =
    let (e, v) = new_server_starts up db w in
    let v' = Reach-IsServing v reach reported in (e, v', append_log-Appends up' now id body p v')
