-- ===== src/Config/Load.antt =====
-- LoadFromEnv and its integer variables.
use buildkit_multipartable.Base.{
  [], ℕ, ◌<◌, ◌^◌, ◌≡◌, refl, ◌∙◌, ℤ, pos, Option, none, Bytes, codes, eqb, Bool-cases, inl, inr,
}
use buildkit_multipartable.Strings.{decimal}
use buildkit_multipartable.Config.{Config, default, parse_int, override, load_from_env}
use buildkit_multipartable.Config.Ints.{parse_int-decimal, decimal-set}

pub data Variable : Type 0 where
  max_upload_bytes max_build_timeout max_list_limit max_cache_keys virtual_replicas queue_max
        max_log_buffer :
      Variable

abbrev pub name : Variable → Bytes
name max_upload_bytes = codes "DTBUILD_MAX_UPLOAD_BYTES"
name max_build_timeout = codes "DTBUILD_MAX_BUILD_TIMEOUT"
name max_list_limit = codes "DTBUILD_MAX_LIST_LIMIT"
name max_cache_keys = codes "DTBUILD_MAX_CACHE_KEYS"
name virtual_replicas = codes "DTBUILD_VIRTUAL_REPLICAS"
name queue_max = codes "DTBUILD_QUEUE_MAX"
name max_log_buffer = codes "DTBUILD_MAX_LOG_BUFFER"

abbrev pub field : Variable → Config → ℤ
field max_upload_bytes c = c.server.max_upload_bytes
field max_build_timeout c = c.server.max_build_timeout
field max_list_limit c = c.server.max_list_limit
field max_cache_keys c = c.worker.max_cache_keys
field virtual_replicas c = c.virtual_replicas
field queue_max c = c.queue_max_len
field max_log_buffer c = c.max_log_buffer

override-unparsed : (v : Bytes) (d : ℤ) → parse_int v ≡ none → override parse_int v d ≡ d
unfolding override
override-unparsed v d h = elim (Bool-cases (eqb v [])) [ inl e ↦ rw e | inr e ↦ rw (e, h) ]

override-decimal :
    (v : Bytes) (d : ℤ) (n : ℕ) → v ≡ decimal n → n < 2 ^ 63 → override parse_int v d ≡ pos n
unfolding override
override-decimal v d n e h = rw (e, decimal-set n, parse_int-decimal n h)

module _ (parse_duration : Bytes → Option ℤ) (getenv : Bytes → Bytes) where
  load_field :
      (v : Variable)
      → field v (load_from_env parse_duration getenv)
        ≡ override parse_int (getenv (name v)) (field v default)
  unfolding load_from_env
  load_field max_upload_bytes = refl
  load_field max_build_timeout = refl
  load_field max_list_limit = refl
  load_field max_cache_keys = refl
  load_field virtual_replicas = refl
  load_field queue_max = refl
  load_field max_log_buffer = refl

  -- Each integer variable that holds the decimal digits of a number below 2^63 sets its field to that
  -- number, whatever the other variables hold.
  load_from_env-decimal :
      (v : Variable) (n : ℕ)
      → getenv (name v) ≡ decimal n
      → n < 2 ^ 63
      → field v (load_from_env parse_duration getenv) ≡ pos n
  load_from_env-decimal v n e h =
      load_field v ∙ override-decimal (getenv (name v)) (field v default) n e h

  -- Each integer variable that is unset, or that ParseInt refuses, leaves its field at the default,
  -- whatever the other variables hold.
  load_from_env-default :
      (v : Variable)
      → parse_int (getenv (name v)) ≡ none
      → field v (load_from_env parse_duration getenv) ≡ field v default
  load_from_env-default v h = load_field v ∙ override-unparsed (getenv (name v)) (field v default) h
