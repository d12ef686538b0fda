-- ===== src/Config.antt =====
-- server/internal/config/config.go. A duration is its number of nanoseconds; time.ParseDuration,
-- whose fractions are floating-point, is a parameter.
pub mod Ints
pub mod Load
mod Examples
use buildkit_multipartable.Base.{
  ℕ, ◌+◌, ◌-◌, ◌*◌, ◌^◌, ℤ, pos, negsuc, Bool, true, false, ◌&&◌, List, [], ◌∷◌, Option, none, some,
  Bytes, codes, eqb, ltb, leb, ◌==◌, if◌then◌else◌, ◌>>=◌,
}

pub record ServerConfig : Type 0 where
  pub request_timeout : ℤ
  pub worker_prune_interval : ℤ
  pub gc_interval : ℤ
  pub gc_retention : ℤ
  pub max_upload_bytes : ℤ
  pub max_bulk_upload_bytes : ℤ
  pub default_build_timeout : ℤ
  pub max_build_timeout : ℤ
  pub max_list_limit : ℤ

pub record WorkerConfig : Type 0 where
  pub http_timeout : ℤ
  pub heartbeat_interval : ℤ
  pub poll_interval : ℤ
  pub cancel_check_interval : ℤ
  pub max_cache_keys : ℤ
  pub max_retries : ℤ

-- The sections SchedulerConfig, QueueConfig and BuildKitConfig have one field each.
pub record Config : Type 0 where
  pub server : ServerConfig
  pub worker : WorkerConfig
  pub virtual_replicas : ℤ
  pub queue_max_len : ℤ
  pub max_log_buffer : ℤ

abbrev pub second : ℕ
second = 1000000000

unfoldable pub default : Config
default = record {
  server = record {
    request_timeout = pos (5 * 60 * second);
    worker_prune_interval = pos (30 * second);
    gc_interval = pos (3600 * second);
    gc_retention = pos (24 * 3600 * second);
    max_upload_bytes = pos (100 * 2 ^ 20);
    max_bulk_upload_bytes = pos (500 * 2 ^ 20);
    default_build_timeout = pos 600;
    max_build_timeout = pos 3600;
    max_list_limit = pos 200;
  };
  worker = record {
    http_timeout = pos (10 * 60 * second);
    heartbeat_interval = pos (5 * second);
    poll_interval = pos (2 * second);
    cancel_check_interval = pos (10 * second);
    max_cache_keys = pos 512;
    max_retries = pos 3;
  };
  virtual_replicas = pos 150;
  queue_max_len = pos 10000;
  max_log_buffer = pos (10 * 2 ^ 20);
}

abbrev pub is_digit : ℕ → Bool
is_digit c = leb b'0' c && leb c b'9'

unfoldable pub digits : ℕ → Bytes → Option ℕ
digits acc [] = some acc
digits acc (c ∷ s) =
    let rest = digits (acc * 10 + (c - b'0')) s in if is_digit c then rest else none

-- the digits of a number, at least one
unfoldable pub magnitude : Bytes → Option ℕ
unfolding digits
magnitude [] = none
magnitude (c ∷ s) = digits 0 (c ∷ s)

abbrev pub minus : ℕ → ℤ
minus n = if n == 0 then pos 0 else negsuc (n - 1)

-- the range of int64
abbrev pub at_least : ℕ → Option ℤ
at_least n = if leb n (2 ^ 63) then some (minus n) else none

abbrev pub at_most : ℕ → Option ℤ
at_most n = if ltb n (2 ^ 63) then some (pos n) else none

-- strconv.ParseInt in base 10 with 64 bits, and strconv.Atoi, with `none` for an error
unfoldable pub parse_int : Bytes → Option ℤ
unfolding magnitude
parse_int [] = none
parse_int (c ∷ s) =
    if c == b'-'
    then magnitude s >>= at_least
    else if c == b'+'
    then magnitude s >>= at_most
    else magnitude (c ∷ s) >>= at_most

-- the value of a variable that is set and parses, else the default
unfoldable pub override : (Bytes → Option ℤ) → Bytes → ℤ → ℤ
override parse v fallback =
    if eqb v [] then fallback else elim (parse v) [ some n ↦ n | none ↦ fallback ]

-- LoadFromEnv, for os.Getenv
unfoldable pub load_from_env : (Bytes → Option ℤ) → (Bytes → Bytes) → Config
load_from_env parse_duration getenv =
    let duration = λ (name : Bytes) (d : ℤ). override parse_duration (getenv name) d in
    let int = λ (name : Bytes) (d : ℤ). override parse_int (getenv name) d in
    let server = default.server in
    let worker = default.worker in
    record {
      server = record server {
        request_timeout = duration (codes "DTBUILD_REQUEST_TIMEOUT") server.request_timeout;
        gc_retention = duration (codes "DTBUILD_GC_RETENTION") server.gc_retention;
        max_upload_bytes = int (codes "DTBUILD_MAX_UPLOAD_BYTES") server.max_upload_bytes;
        max_build_timeout = int (codes "DTBUILD_MAX_BUILD_TIMEOUT") server.max_build_timeout;
        max_list_limit = int (codes "DTBUILD_MAX_LIST_LIMIT") server.max_list_limit;
      };
      worker = record worker {
        http_timeout = duration (codes "DTBUILD_WORKER_HTTP_TIMEOUT") worker.http_timeout;
        heartbeat_interval =
            duration (codes "DTBUILD_HEARTBEAT_INTERVAL") worker.heartbeat_interval;
        poll_interval = duration (codes "DTBUILD_POLL_INTERVAL") worker.poll_interval;
        max_cache_keys = int (codes "DTBUILD_MAX_CACHE_KEYS") worker.max_cache_keys;
      };
      virtual_replicas = int (codes "DTBUILD_VIRTUAL_REPLICAS") default.virtual_replicas;
      queue_max_len = int (codes "DTBUILD_QUEUE_MAX") default.queue_max_len;
      max_log_buffer = int (codes "DTBUILD_MAX_LOG_BUFFER") default.max_log_buffer;
    }
