-- ===== src/Api.antt =====
-- server/internal/api/server.go and internal.go: the handlers, on decoded requests. A JSON body is
-- `none` if it does not decode; a form and the object store are parameters of the handler that uses them.
pub mod Lists
pub mod Submits
pub mod Server
pub mod Serves
pub mod Sound
mod Examples
use buildkit_multipartable.Base.{
  ◌%◌, ◌^◌, ℕ, suc, ◌+◌, ◌-◌, ◌<◌, ℤ, pos, negsuc, Bool, true, false, not, ◌&&◌, ◌||◌, List, [],
  ◌∷◌, ◌++◌, Option, none, some, Bytes, codes, eqb, length, take, drop, leb, ltb, ltb_ℤ, ◌==◌,
  if◌then◌else◌, ◌>>=◌, Result, ok, err, Float64,
}
use buildkit_multipartable.Strings.{is_space}
use buildkit_multipartable.Domain.{Build, Worker, Rate, Status}
use buildkit_multipartable.Config.{digits, is_digit, at_least, at_most}
use buildkit_multipartable.Repo
use buildkit_multipartable.Service
use buildkit_multipartable.Service.{
  State, Submission, Failure, queue_full, invalid, not_cancellable, from_repo, submit_build,
}

-- What a handler writes: a success with its status code and body, or a status code with a message.
pub data Response {ℓ} (A : Type ℓ) : Type ℓ where
  reply : ℕ → A → Response A
  fail : ℕ → Response A

abbrev pub clamp_timeout : ℤ → ℤ
clamp_timeout t =
    let t' = if ltb_ℤ (pos 0) t then t else pos 600 in if ltb_ℤ (pos 3600) t' then pos 3600 else t'

-- the body of a JSON submission
pub record SubmitRequest : Type 0 where
  pub build_id : Bytes
  pub context_key : Bytes
  pub dockerfile : Bytes
  pub image_tag : Bytes
  pub user_id : Bytes
  pub timeout_seconds : ℤ
  pub args : List (Bytes × Bytes)

-- the first one, unless it is empty
abbrev pub or_else : Bytes → Bytes → Bytes
or_else s fallback = if eqb s [] then fallback else s

-- the arguments that the JSON path of submitBuild gives to SubmitBuild
unfoldable pub json_submission : Bytes → Bytes → SubmitRequest → Submission
json_submission uuid api_key req = record {
  build_id = or_else req.build_id uuid;
  ctx_key = req.context_key;
  dockerfile = or_else req.dockerfile (codes "Dockerfile");
  image_tag = req.image_tag;
  user_id = or_else req.user_id api_key;
  timeout_sec = clamp_timeout req.timeout_seconds;
  args = req.args;
}

-- the fields of a multipart submission; `has_context` says whether it has the file
pub record SubmitForm : Type 0 where
  pub has_context : Bool
  pub build_id : Bytes
  pub dockerfile : Bytes
  pub image_tag : Bytes
  pub user_id : Bytes

-- and the arguments that the multipart path gives to SubmitBuild
unfoldable pub form_submission : Bytes → Bytes → SubmitForm → Submission
form_submission uuid api_key form =
    let build_id = or_else form.build_id uuid in
    record {
      build_id = build_id;
      ctx_key = codes "contexts/" ++ (build_id ++ codes ".tar.gz");
      dockerfile = or_else form.dockerfile (codes "Dockerfile");
      image_tag = form.image_tag;
      user_id = or_else form.user_id api_key;
      timeout_sec = pos 600;
      args = [];
    }

-- the status code for an error of SubmitBuild
abbrev pub submit_code : Failure → ℕ
submit_code queue_full = 503
submit_code _ = 409

unfoldable pub submit_reply : State × Result Failure Build → State × Response Build
submit_reply (s, ok b) = (s, reply 201 b)
submit_reply (s, err e) = (s, fail (submit_code e))

-- The circumstances of a submission: SHA-256, the UUIDs that the handler and the service would make,
-- whether the database answers the two statements, the time, the calls in between, and X-Api-Key.
pub record Circumstances : Type 0 where
  pub sha256 : Bytes → Bytes
  pub uuid : Bytes
  pub uuid2 : Bytes
  pub up : Bool
  pub up2 : Bool
  pub now : ℕ
  pub meanwhile : State → State
  pub api_key : Bytes

abbrev pub submit : Circumstances → Submission → State → Option (State × Response Build)
submit c sub s = do
  p ← submit_build c.sha256 c.uuid2 c.up c.up2 c.now c.meanwhile sub s
  some (submit_reply p)

-- the JSON path of submitBuild
unfoldable pub submit_json :
    Circumstances → Option SubmitRequest → State → Option (State × Response Build)
submit_json c none s = some (s, fail 400)
submit_json c (some req) s =
    if eqb req.context_key []
    then some (s, fail 400)
    else submit c (json_submission c.uuid c.api_key req) s

-- the multipart path, with whether the object store takes the context
unfoldable pub submit_form :
    Circumstances → Bool → Option SubmitForm → State → Option (State × Response Build)
submit_form c stores none s = some (s, fail 400)
submit_form c stores (some form) s =
    if not form.has_context
    then some (s, fail 400)
    else if not stores
    then some (s, fail 500)
    else submit c (form_submission c.uuid c.api_key form) s

-- fmt.Sscanf with %d, with `none` for an error
unfoldable pub digit_prefix : Bytes → Bytes
digit_prefix [] = []
digit_prefix (c ∷ s) = let rest = digit_prefix s in if is_digit c then c ∷ rest else []

abbrev pub scan_magnitude : Bytes → Option ℕ
scan_magnitude s = if eqb (digit_prefix s) [] then none else digits 0 (digit_prefix s)

unfoldable pub scan_int : Bytes → Option ℤ
unfolding digit_prefix
scan_int [] = none
scan_int (c ∷ s) =
    let rest = scan_int s in
    if c == 10
    then none
    else if is_space c
    then rest
    else if c == b'-'
    then scan_magnitude s >>= at_least
    else if c == b'+'
    then scan_magnitude s >>= at_most
    else scan_magnitude (c ∷ s) >>= at_most

-- a parameter of the query: its number, or the default
unfoldable pub query_int : Bytes → ℤ → ℤ
query_int v fallback =
    if eqb v [] then fallback else elim (scan_int v) [ some n ↦ n | none ↦ fallback ]

unfoldable pub page_limit : Bytes → ℕ
page_limit v = elim (query_int v (pos 20)) [
  | negsuc n ↦ 20
  | pos n ↦ if n == 0 then 20 else if ltb 200 n then 200 else n
]

unfoldable pub page_offset : Bytes → ℕ
page_offset v = elim (query_int v (pos 0)) [ negsuc n ↦ 0 | pos n ↦ n ]

pub record Page : Type 0 where
  pub builds : List Build
  pub total : ℕ
  pub limit : ℕ
  pub offset : ℕ

-- the slice for the page
unfoldable pub paginate : ℕ → ℕ → List Build → List Build
paginate limit offset builds =
    let end = if ltb (length builds) (offset + limit) then length builds else offset + limit in
    if ltb offset (length builds) then take (end - offset) (drop offset builds) else []

-- the sum of two ints of 64 bits
unfoldable pub int_sum : ℕ → ℕ → ℤ
int_sum a b = let n = (a + b) % 2 ^ 64 in if ltb n (2 ^ 63) then pos n else negsuc (2 ^ 64 - 1 - n)

-- A negative LIMIT is an error of the database.
unfoldable pub list_builds : Bool → Bool → Bytes → Bytes → State → Response Page
list_builds up up2 limit_arg offset_arg s =
    let limit = page_limit limit_arg in
    let offset = page_offset offset_arg in
    elim (int_sum offset limit) [
      | negsuc n ↦ fail 500
      | pos n ↦ elim (Repo.list up n s.db) [
        | err e ↦ fail 500
        | ok builds ↦ elim (Repo.count_all up2 s.db) [
          | err e ↦ fail 500
          | ok total ↦ reply 200 (record {
            builds = paginate limit offset builds;
            total = total;
            limit = limit;
            offset = offset;
          })
        ]
      ]
    ]

unfoldable pub next_reply : State × Result Failure (Option Build) → State × Response (Option Build)
next_reply (s, err e) = (s, fail 500)
next_reply (s, ok none) = (s, reply 204 none)
next_reply (s, ok (some b)) = (s, reply 200 (some b))

unfoldable pub get_next_build :
    Float64 → Bool → Bool → ℕ → Bytes → State → Option (State × Response (Option Build))
get_next_build fl up up2 now worker_id s =
    if eqb worker_id []
    then some (s, fail 400)
    else do p ← Service.assign_build fl up up2 now worker_id s; some (next_reply p)

unfoldable pub get_build : Bool → Bytes → State → Response Build
get_build up id s = elim (Repo.get up id s.db) [ err e ↦ fail 404 | ok b ↦ reply 200 b ]

abbrev pub empty_reply {ℓ} : {E : Type ℓ} → ℕ → Result E (Unit {0}) → Response (Unit {0})
empty_reply code (err e) = fail code
empty_reply code (ok _) = reply 200 tt

-- appendLog, up to the log broker's publish
unfoldable pub append_log : Bool → ℕ → Bytes → Bytes → State → State × Response (Unit {0})
append_log up now id body s =
    let (s', r) = Service.append_log up now id body s in (s', empty_reply 404 r)

pub record CompleteRequest : Type 0 where
  pub status : Status
  pub error : Bytes
  pub cache_hit_rate : Rate

-- completeBuild after CompleteBuild
unfoldable pub complete_reply :
    Bool → Bytes → Rate → State × Result Failure (Unit {0}) → State × Response (Unit {0})
complete_reply up id rate (s, err e) = (s, fail 500)
complete_reply up id rate (s, ok _) =
    if ltb_ℤ rate.num (pos 0)
    then (s, reply 200 tt)
    else (record s { db = (Repo.set_cache_rate up id rate s.db).0 }, reply 200 tt)

unfoldable pub complete_build :
    Bool → Bool → Bool → ℕ → Bytes → Option CompleteRequest → State → State × Response (Unit {0})
complete_build up up2 up3 now id none s = (s, fail 400)
complete_build up up2 up3 now id (some req) s =
    complete_reply up3 id req.cache_hit_rate
      (Service.complete_build up up2 now id req.status req.error s)

unfoldable pub cancel_build : Bool → Bool → ℕ → Bytes → State → Option (State × Response (Unit {0}))
cancel_build up up2 now id s = do
  (s', r) ← Service.cancel_build up up2 now id s
  some (s', empty_reply 409 r)

unfoldable pub worker_heartbeat : Bool → ℕ → Option Worker → State → State × Response (Unit {0})
worker_heartbeat up now none s = (s, fail 400)
worker_heartbeat up now (some w) s =
    let (s', r) = Service.heartbeat up now w s in (s', empty_reply 500 r)

pub record Health : Type 0 where
  pub db_ok : Bool
  pub pending_builds : ℕ
  pub active_workers : ℕ
  pub queue_depth : ℕ

abbrev pub or_zero {ℓ} : {E : Type ℓ} → Result E ℕ → ℕ
or_zero (err e) = 0
or_zero (ok n) = n

unfoldable pub admin_health : Bool → Bool → ℕ → State → Response Health
admin_health up up2 now s = reply 200 (record {
  db_ok = true;
  pending_builds = or_zero (Repo.count_pending up s.db);
  active_workers = or_zero (Repo.count_active up2 now 30 s.db);
  queue_depth = Service.queue_len s;
})

-- What a clock shows in a zone so many seconds east of UTC. The text of a cutoff has it, and is compared
-- with texts in UTC; the zone's suffix, after all digits, makes no time before an equal one.
abbrev pub wall_clock : ℤ → ℕ → ℕ
wall_clock (pos z) t = t + z
wall_clock (negsuc z) t = t - suc z

unfoldable pub manual_gc : Bool → ℤ → ℕ → State → State × Response ℕ
manual_gc up zone now s =
    let (db', r) = Repo.gc up (wall_clock zone (now - 3600)) s.db in
    (record s { db = db' }, elim r [ err e ↦ fail 500 | ok n ↦ reply 200 n ])
