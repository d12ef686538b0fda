-- ===== src/Domain.antt =====
-- server/internal/domain/domain.go: the types that all layers share. A time is a number of
-- seconds, since the layers compare times only in RFC 3339 form, which has whole seconds.
use buildkit_multipartable.Base.{ℕ, ℤ, Bool, true, false, List, Option, Bytes}

-- A status is a Go string; `other` holds a string that is none of the six constants, "" included.
pub data Status : Type 0 where
  pending building succeeded failed cancelled timed_out : Status
  other : Bytes → Status

-- IsTerminal
abbrev pub is_terminal : Status → Bool
is_terminal succeeded = true
is_terminal failed = true
is_terminal cancelled = true
is_terminal timed_out = true
is_terminal _ = false

-- A float64 as a fraction: the cache hit rate is -1 or `hits / total * 100`.
pub record Rate : Type 0 where
  pub num : ℤ
  pub den : ℕ

pub record Build : Type 0 where
  pub id : Bytes
  pub status : Status
  pub fingerprint : Bytes
  pub worker_id : Bytes
  pub context_key : Bytes
  pub dockerfile : Bytes
  pub image_tag : Bytes
  pub args : List (Bytes × Bytes)
  pub instructions : List Bytes
  pub logs : Bytes
  pub error : Bytes
  pub retry_count : ℤ
  pub max_retries : ℤ
  pub timeout_seconds : ℤ
  pub user_id : Bytes
  pub priority : ℤ
  pub cache_hit_rate : Rate
  pub created_at : ℕ
  pub updated_at : ℕ
  pub completed_at : Option ℕ

pub record Worker : Type 0 where
  pub id : Bytes
  pub hostname : Bytes
  pub ip : Bytes
  pub status : Bytes
  pub last_heartbeat : ℕ
  pub cache_keys : List Bytes
