-- ===== src/Worker/Loop.antt =====
-- server/internal/worker/worker.go: NewWorker, initS3, sendHeartbeat, and the loop of Run. The goroutine
-- of an attempt ends by storing `false` in `busy`, which is a step of its own.
use buildkit_multipartable.Base.{
  ℕ, ◌+◌, ◌-◌, ◌≤◌, ◌<◌, ◌≡◌, refl, ◌↔◌, ◌⊎◌, Bool, true, false, not, List, [], Option, none, some,
  Bytes, codes, eqb, arith, inl, if◌then◌else◌,
}
use buildkit_multipartable.Strings.{trim_right_of}
use buildkit_multipartable.Domain
use buildkit_multipartable.Blobs.{S3Config, s3_config}

-- the fields of Worker that stay as they are
pub record Identity : Type 0 where
  pub id : Bytes
  pub hostname : Bytes
  pub server_url : Bytes
  pub buildkit_addr : Bytes
  pub work_dir : Bytes
  pub cache_registry : Bytes

-- NewWorker, for the new UUID and the host's name
unfoldable pub new_worker : Bytes → Bytes → Bytes → Bytes → Bytes → Bytes → Identity
new_worker uuid hostname server_url buildkit_addr work_dir cache_registry = record {
  id = uuid;
  hostname = hostname;
  server_url = trim_right_of b'/' server_url;
  buildkit_addr = buildkit_addr;
  work_dir = work_dir;
  cache_registry = cache_registry;
}

-- initS3: the bucket, if there is a client, for whether one can be made
unfoldable pub init_s3 : (S3Config → Bool) → (Bytes → Bytes) → Option Bytes
init_s3 connects getenv =
    if eqb (getenv (codes "S3_ENDPOINT")) []
    then none
    else if not (connects (s3_config getenv))
    then none
    else some (s3_config getenv).bucket

-- sendHeartbeat: the body; the address and the time are not set
unfoldable pub send_heartbeat : Identity → List Bytes → Bytes → Domain.Worker
send_heartbeat w cache_keys status = record {
  id = w.id;
  hostname = w.hostname;
  ip = [];
  status = status;
  last_heartbeat = 0;
  cache_keys = cache_keys;
}

-- `busy`, and the number of goroutines that run tryExecuteBuild
pub record Loop : Type 0 where
  pub busy : Bool
  pub attempts : ℕ

abbrev pub start : Loop
start = record { busy = false; attempts = 0 }

-- Run: a tick of pollTicker
unfoldable pub poll : Loop → Loop
poll l = if l.busy then l else record l { busy = true; attempts = l.attempts + 1 }

-- Run: the status that a tick of heartbeatTicker sends
unfoldable pub heartbeat_status : Loop → Bytes
heartbeat_status l = if l.busy then codes "busy" else codes "idle"

-- Run: the end of a goroutine
unfoldable pub attempt_ends : Loop → Loop
attempt_ends l = record l { busy = false; attempts = l.attempts - 1 }

-- the steps of Run, a heartbeat changing nothing
pub data Step : Loop → Loop → Type 0 where
  polls : {l : Loop} → Step l (poll l)
  ends : {l : Loop} → 0 < l.attempts → Step l (attempt_ends l)

pub data Reach : Loop → Loop → Type 0 where
  here : {l : Loop} → Reach l l
  then_step : {l m n : Loop} → Reach l m → Step m n → Reach l n

abbrev IsSingle : Loop → Type 0
IsSingle l = ((l.busy ≡ false) × (l.attempts ≡ 0)) ⊎ ((l.busy ≡ true) × (l.attempts ≡ 1))

Step-IsSingle : {l m : Loop} → Step l m → IsSingle l → IsSingle m
unfolding poll attempt_ends
Step-IsSingle (polls {l}) s = ground arith
Step-IsSingle (ends {l} h) s = ground arith

Reach-IsSingle : {l m : Loop} → Reach l m → IsSingle l → IsSingle m
Reach-IsSingle here s = s
Reach-IsSingle (then_step r t) s = Step-IsSingle t (Reach-IsSingle r s)

idle_iff :
    (l : Loop)
    → IsSingle l
    → (l.attempts ≤ 1) × ((heartbeat_status l ≡ codes "idle") ↔ (l.attempts ≡ 0))
unfolding heartbeat_status
idle_iff l s = ground arith

-- At most one attempt runs at a time, and heartbeats say "idle" exactly while none does.
pub Reach-start-Idle :
    (l : Loop)
    → Reach start l
    → (l.attempts ≤ 1) × ((heartbeat_status l ≡ codes "idle") ↔ (l.attempts ≡ 0))
Reach-start-Idle l r = idle_iff l (Reach-IsSingle r (inl (refl, refl)))
