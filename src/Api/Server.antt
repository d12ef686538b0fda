-- ===== src/Api/Server.antt =====
-- server/internal/api/server.go: NewServer, maintenanceLoop, and the handlers that use the log broker,
-- getBuildLogs and appendLog.
use buildkit_multipartable.Base.{
  ℤ, ℕ, ◌-◌, ◌⊎◌, inl, inr, pos, Bool, Option, some, Bytes, codes, eqb, if◌then◌else◌, ◌>>=◌, ok,
  err,
}
use buildkit_multipartable.Queue
use buildkit_multipartable.Repo
use buildkit_multipartable.Repo.{Db}
use buildkit_multipartable.Scheduler
use buildkit_multipartable.Service.{
  State, warm_queue, prune_stale, reassign_stale_builds, gc_completed,
}
use buildkit_multipartable.LogBroker.{LogBroker, new_log_broker, publish}
use buildkit_multipartable.LogBroker.Stream.{Viewer, open_stream}
use buildkit_multipartable.Api
use buildkit_multipartable.Api.{Response, reply, fail, wall_clock}

-- the services' state and the log broker
pub record Server : Type 0 where
  pub state : State
  pub broker : LogBroker

-- NewServer, on the tables that it finds. It goes on if WarmQueue fails.
unfoldable pub new_server : Bool → Db → Option Server
new_server up db = do
  (s, r) ←
      warm_queue up (record { db = db; queue = Queue.new (pos 10000); scheduler = Scheduler.new })
  some (record { state = s; broker = new_log_broker })

-- maintenanceLoop: a tick of workerTicker
unfoldable pub on_worker_tick : Bool → Bool → Bool → ℕ → Server → Server
on_worker_tick up up2 up3 now srv =
    let pruned = (prune_stale up now 30 srv.state).0 in
    record srv { state = (reassign_stale_builds up2 up3 now 60 600 pruned).0 }

-- maintenanceLoop: a tick of gcTicker
unfoldable pub on_gc_tick : Bool → ℤ → ℕ → Server → Server
on_gc_tick up zone now srv = record srv {
  state = (gc_completed up (wall_clock zone (now - 86400)) srv.state).0;
}

-- getBuildLogs: a response, or a stream with the new pointer
unfoldable pub get_build_logs : Bool → Bytes → ℕ → Bytes → Server → Response Bytes ⊎ Viewer
get_build_logs up stream sub id srv = elim (Repo.get up id srv.state.db) [
  | err e ↦ inl (fail 404)
  | ok build ↦
      if eqb stream (codes "true")
      then inr (open_stream id sub build.logs srv.broker)
      else inl (reply 200 build.logs)
]

-- appendLog after AppendLog
unfoldable pub published :
    Bytes → Bytes → LogBroker → State × Response (Unit {0}) → Option (Server × Response (Unit {0}))
published id body broker (s, fail code) = some (record { state = s; broker = broker }, fail code)
published id body broker (s, reply code r) = do
  broker' ← publish id body broker
  some (record { state = s; broker = broker' }, reply code r)

unfoldable pub append_log :
    Bool → ℕ → Bytes → Bytes → Server → Option (Server × Response (Unit {0}))
unfolding published
append_log up now id body srv =
    published id body srv.broker (Api.append_log up now id body srv.state)
