-- ===== src/Api/Serves.antt =====
-- A server over all its requests and ticks.
use buildkit_multipartable.Base.{
  ℤ, ℕ, ◌≡◌, refl, pos, Bool, true, Option, none, some, Bytes, eqb, Result, ok, err, Float64,
  Bool-cases, Option-cases, inl, inr, ltb_ℤ, [],
}
use buildkit_multipartable.Domain.{Build, Worker, Rate}
use buildkit_multipartable.Repo.Steps as Tables
use buildkit_multipartable.Repo.Steps.{is_report}
use buildkit_multipartable.Service
use buildkit_multipartable.Service.{
  State, Submission, Failure, submit_begin, submit_finish, assign_build, warm_queue,
}
use buildkit_multipartable.Service.Sound.{IsSound, Leaves, leaves, with_db, assign_build-Leaves}
use buildkit_multipartable.Service.Steps as Calls
use buildkit_multipartable.Service.Steps.{Step-IsSound}
use buildkit_multipartable.LogBroker.{LogBroker}
use buildkit_multipartable.LogBroker.Sending.{publish-Sends}
use buildkit_multipartable.LogBroker.Steps as Logs
use buildkit_multipartable.LogBroker.Steps.{Stage, Running, IsOrderly}
use buildkit_multipartable.Api
use buildkit_multipartable.Api.{
  Response, reply, fail, CompleteRequest, get_next_build, complete_build, worker_heartbeat,
  manual_gc,
}
use buildkit_multipartable.Api.Server
use buildkit_multipartable.Api.Server.{Server, new_server, on_worker_tick, on_gc_tick, published}

-- The server, and where the handlers of its log streams are.
pub record Process : Type 0 where
  pub server : Server
  pub stage : ℕ → Stage

abbrev pub logs : Process → Running
logs p = record { broker = p.server.broker; stage = p.stage }

abbrev pub with_state : Process → State → Process
with_state p s = record p { server = record p.server { state = s } }

-- What the handlers and the tickers do, with any arguments and failures. A submission is two steps, and
-- the calls of the log broker come from the streams.
pub data Step (p : Process) : Process → Type 1 where
  begins :
      (sha256 : Bytes → Bytes) (uuid : Bytes) (up : Bool) (now : ℕ) (sub : Submission)
      → Step p (with_state p (submit_begin sha256 uuid up now sub p.server.state).0)
  finishes :
      (up : Bool) (now : ℕ) (b : Build) {t : State} (r : Result Failure Build)
      → submit_finish up now b p.server.state ≡ some (t, r)
      → Step p (with_state p t)
  gets_next :
      (fl : Float64) (up up2 : Bool) (now : ℕ) (worker_id : Bytes) {t : State}
      (r : Response (Option Build))
      → get_next_build fl up up2 now worker_id p.server.state ≡ some (t, r)
      → Step p (with_state p t)
  completes :
      (up up2 up3 : Bool) (now : ℕ) (id : Bytes) (req : Option CompleteRequest)
      → Step p (with_state p (complete_build up up2 up3 now id req p.server.state).0)
  cancels :
      (up up2 : Bool) (now : ℕ) (id : Bytes) {t : State} (r : Response (Unit {0}))
      → Api.cancel_build up up2 now id p.server.state ≡ some (t, r)
      → Step p (with_state p t)
  heartbeats :
      (up : Bool) (now : ℕ) (w : Option Worker)
      → Step p (with_state p (worker_heartbeat up now w p.server.state).0)
  cleans :
      (up : Bool) (zone : ℤ) (now : ℕ)
      → Step p (with_state p (manual_gc up zone now p.server.state).0)
  appends :
      (up : Bool) (now : ℕ) (id body : Bytes) {t : Server} (r : Response (Unit {0}))
      → Server.append_log up now id body p.server ≡ some (t, r)
      → Step p (record p { server = t })
  streams :
      {r : Running}
      → Logs.Step (logs p) r
      → Step p (record { server = record p.server { broker = r.broker }; stage = r.stage })
  worker_ticks :
      (up up2 up3 : Bool) (now : ℕ)
      → Step p (record p { server = on_worker_tick up up2 up3 now p.server })
  gc_ticks :
      (up : Bool) (zone : ℤ) (now : ℕ)
      → Step p (record p { server = on_gc_tick up zone now p.server })

pub data Reach (p : Process) : Process → Type 1 where
  here : Reach p p
  next : {q u : Process} → Reach p q → Step q u → Reach p u

-- A request that completes a build has a terminal status, building or none.
abbrev pub Reported : {p q : Process} → Step p q → Type 0
Reported (completes up up2 up3 now id (some req)) = is_report req.status ≡ true
Reported _ = Unit {0}

abbrev pub AllReported : {p q : Process} → Reach p q → Type 0
AllReported here = Unit {0}
AllReported (next r step) = AllReported r × Reported step

next_reply-IsSound :
    (p : State × Result Failure (Option Build)) → IsSound p.0 → IsSound (Api.next_reply p).0
unfolding Api.next_reply
next_reply-IsSound (s, err e) v = v
next_reply-IsSound (s, ok none) v = v
next_reply-IsSound (s, ok (some b)) v = v

module _ (s : State) (v : IsSound s) where
  pub get_next_build-Leaves :
      (fl : Float64) (up up2 : Bool) (now : ℕ) (worker_id : Bytes)
      → Leaves (get_next_build fl up up2 now worker_id s)
  unfolding get_next_build
  get_next_build-Leaves fl up up2 now worker_id = elim (Bool-cases (eqb worker_id [])) [
    | inl h ↦ rw h v
    | inr h ↦ elim (Option-cases (assign_build fl up up2 now worker_id s)) [
      | inl f ↦ rw (h, f) tt
      | inr (p, f) ↦
          rw (h, f)
            (next_reply-IsSound p (leaves (assign_build-Leaves fl up up2 now worker_id s v) f))
    ]
  ]

  complete_reply-IsSound :
      (up3 : Bool) (id : Bytes) (rate : Rate) (p : State × Result Failure (Unit {0}))
      → IsSound p.0
      → IsSound (Api.complete_reply up3 id rate p).0
  unfolding Api.complete_reply
  complete_reply-IsSound up3 id rate (t, err e) w = w
  complete_reply-IsSound up3 id rate (t, ok _) w = elim (Bool-cases (ltb_ℤ rate.num (pos 0))) [
    | inl h ↦ rw h w
    | inr h ↦ rw h (with_db t w (Tables.rates up3 id rate) tt)
  ]

  pub complete_build-IsSound :
      (up up2 up3 : Bool) (now : ℕ) (id : Bytes) (req : Option CompleteRequest)
      → ((r : CompleteRequest) → req ≡ some r → is_report r.status ≡ true)
      → IsSound (complete_build up up2 up3 now id req s).0
  unfolding complete_build
  complete_build-IsSound up up2 up3 now id none h = v
  complete_build-IsSound up up2 up3 now id (some req) h =
      complete_reply-IsSound up3 id req.cache_hit_rate _
        (Step-IsSound (Calls.completes up up2 now id req.status req.error) (h req refl) v)

  pub cancel_build-Leaves :
      (up up2 : Bool) (now : ℕ) (id : Bytes) → Leaves (Api.cancel_build up up2 now id s)
  unfolding Api.cancel_build
  cancel_build-Leaves up up2 now id = elim (Option-cases (Service.cancel_build up up2 now id s)) [
    | inl f ↦ rw f tt
    | inr ((t, r), f) ↦ rw f (Step-IsSound (Calls.cancels up up2 now id r f) tt v)
  ]

  pub worker_heartbeat-IsSound :
      (up : Bool) (now : ℕ) (w : Option Worker) → IsSound (worker_heartbeat up now w s).0
  unfolding worker_heartbeat
  worker_heartbeat-IsSound up now none = v
  worker_heartbeat-IsSound up now (some w) = Step-IsSound (Calls.heartbeats up now w) tt v

-- The services' state is sound and the log broker in order.
abbrev pub IsServing : Process → Type 0
IsServing p = IsSound p.server.state × IsOrderly (logs p)

-- Publishing does not panic.
pub published-Serves :
    (id body : Bytes) (broker : LogBroker) (stage : ℕ → Stage) (p : State × Response (Unit {0}))
    → IsSound p.0
    → IsOrderly (record { broker = broker; stage = stage })
    → (t : Server) × (published id body broker p ≡ some (t, p.1))
      × IsServing (record { server = t; stage = stage })
unfolding published
published-Serves id body broker stage (s, fail code) v b =
    (record { state = s; broker = broker }, refl, (v, b))
published-Serves id body broker stage (s, reply code r) v b =
    let (store, e, _) = publish-Sends id body broker b.tidy in
    (
      record { state = s; broker = record broker { store = store } },
      rw e refl,
      (v, Logs.Step-IsOrderly (Logs.publishes id body e) b),
    )
