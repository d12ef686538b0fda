-- ===== src/Cli.antt =====
-- server/cmd/dtbuild/main.go. A command is the request that it sends and what it does with the answer;
-- `exits` is os.Exit(1) after a message. The coding of a multipart form is left out.
pub mod Flags
pub mod Submits
pub mod Answers
pub mod Exits
mod Examples
use buildkit_multipartable.Base.{
  ℕ, zero, suc, Bool, true, false, not, ◌&&◌, List, [], ◌∷◌, ◌++◌, Option, none, some, Bytes, codes,
  eqb, drop, take, ◌==◌, if◌then◌else◌, ◌>>=◌, Result, ok, err, Files, write,
}
use buildkit_multipartable.Strings.{has_prefix, index, trim_right_of}
use buildkit_multipartable.Paths.{join_path}
use buildkit_multipartable.Blobs.{or_default}
use buildkit_multipartable.Archive.{Archive}

abbrev pub is_flag : Bytes → Bool
is_flag a = has_prefix a (codes "--")

-- the loop of getServerURL
unfoldable pub server_flag : List Bytes → Option Bytes
server_flag [] = none
server_flag (a ∷ []) = none
server_flag (a ∷ b ∷ args) =
    let rest = server_flag (b ∷ args) in if eqb a (codes "--server") then some b else rest

-- getServerURL, for os.Getenv
unfoldable pub get_server_url : (Bytes → Bytes) → List Bytes → Bytes
get_server_url getenv args = elim (server_flag args) [
  | some url ↦ url
  | none ↦ or_default (getenv (codes "DTBUILD_SERVER")) (codes "http://localhost:8640")
]

-- SplitN(a[6:], "=", 2), if it gives two parts
unfoldable pub split_arg : Bytes → Option (Bytes × Bytes)
split_arg a = elim (index (drop 6 a) (codes "=")) [
  | none ↦ none
  | some i ↦ some (take i (drop 6 a), drop (suc i) (drop 6 a))
]

abbrev pub add_arg : Option (Bytes × Bytes) → Files → Files
add_arg none kv = kv
add_arg (some (k, v)) kv = write k v kv

-- One round of parseArgs: what it finds, and whether it skips the next argument.
unfoldable pub parse_round : Bytes → List Bytes → Files × List Bytes → (Files × List Bytes) × Bool
parse_round a next (kv, positional) =
    if has_prefix a (codes "--arg.")
    then ((add_arg (split_arg a) kv, positional), false)
    else if not (is_flag a)
    then ((kv, positional ++ a ∷ []), false)
    else ((kv, positional), elim next [ [] ↦ false | b ∷ bs ↦ not (is_flag b) ])

-- parseArgs, from a state; the flag says whether the first argument is skipped
unfoldable pub parse_loop : Bool → List Bytes → Files × List Bytes → Files × List Bytes
unfolding parse_round
parse_loop skip [] st = st
parse_loop true (a ∷ args) st = parse_loop false args st
parse_loop false (a ∷ args) st = let (st', skip) = parse_round a args st in parse_loop skip args st'

unfoldable pub parse_args : List Bytes → Files × List Bytes
unfolding parse_loop
parse_args args = parse_loop false args ([], [])

-- kvFlag
unfoldable pub kv_flag : Bytes → List Bytes → Bytes
kv_flag key [] = []
kv_flag key (a ∷ []) = []
kv_flag key (a ∷ b ∷ args) =
    let rest = kv_flag key (b ∷ args) in if eqb a key && not (is_flag b) then b else rest

-- a part of a multipart form
pub data Part : Type 0 where
  file_part : Bytes → Bytes → Archive → Part
  field : Bytes → Bytes → Part

pub data Method : Type 0 where
  get post : Method

-- a request; the header X-Api-Key is set if the key is not empty
pub record Request : Type 0 where
  pub method : Method
  pub url : Bytes
  pub parts : List Part
  pub api_key : Bytes

-- What a command finds in its surroundings: os.Getenv, ReadFile, and tarGz of a folder.
pub record Surroundings : Type 0 where
  pub getenv : Bytes → Bytes
  pub read_file : Bytes → Option Bytes
  pub tar : Bytes → Option Archive

pub data Fault : Type 0 where
  usage : Fault
  no_dockerfile : Fault
  no_archive : Fault

-- doGet and doPost
unfoldable pub request : Surroundings → Method → Bytes → List Part → Request
request w method url parts = record {
  method = method;
  url = url;
  parts = parts;
  api_key = w.getenv (codes "DTBUILD_API_KEY");
}

-- strings.TrimRight(getServerURL(args), "/")
abbrev pub base_url : Surroundings → List Bytes → Bytes
base_url w args = trim_right_of b'/' (get_server_url w.getenv args)

abbrev pub arg_field : Bytes → List Part → List Part
arg_field a rest =
    if has_prefix a (codes "--arg.")
    then elim (split_arg a) [ none ↦ rest | some kv ↦ field (codes "arg." ++ kv.0) kv.1 ∷ rest ]
    else rest

-- cmdSubmit: the fields of the build arguments
unfoldable pub arg_fields : List Bytes → List Part
arg_fields [] = []
arg_fields (a ∷ args) = arg_field a (arg_fields args)

abbrev pub tar_of : Surroundings → Bytes → Result Fault Archive
tar_of w folder = elim (w.tar folder) [ none ↦ err no_archive | some a ↦ ok a ]

unfoldable pub submit_parts : Surroundings → List Bytes → Bytes → Result Fault (List Part)
submit_parts w args folder =
    let dockerfile = or_default (kv_flag (codes "--dockerfile") args) (codes "Dockerfile") in
    elim (w.read_file (join_path folder dockerfile)) [
      | none ↦ err no_dockerfile
      | some content ↦ elim (w.tar folder) [
        | none ↦ err no_archive
        | some a ↦ ok (
            file_part (codes "context") (codes "context.tar.gz") a
            ∷ field (codes "dockerfile") content
            ∷ field (codes "image_tag") (kv_flag (codes "--tag") args)
            ∷ arg_fields args)
      ]
    ]

abbrev pub posted : Surroundings → Bytes → Result Fault (List Part) → Result Fault Request
posted w url (err e) = err e
posted w url (ok parts) = ok (request w post url parts)

-- cmdSubmit up to the request
unfoldable pub cmd_submit : Surroundings → List Bytes → Result Fault Request
unfolding request
cmd_submit w args = elim (parse_args args).1 [
  | [] ↦ err usage
  | folder ∷ rest ↦
      posted w (base_url w args ++ codes "/api/v1/builds") (submit_parts w args folder)
]

unfoldable pub bulk_parts : Surroundings → List Bytes → Bytes → Result Fault (List Part)
bulk_parts w args folder =
    let prefix = or_default (kv_flag (codes "--tag-prefix") args) (codes "registry:80/bulk") in
    elim (w.tar folder) [
      | none ↦ err no_archive
      | some a ↦ ok (
          file_part (codes "context") (codes "context.tar.gz") a
          ∷ field (codes "tag_prefix") prefix
          ∷ [])
    ]

-- cmdSubmitBulk up to the request
unfoldable pub cmd_submit_bulk : Surroundings → List Bytes → Result Fault Request
unfolding request
cmd_submit_bulk w args = elim (parse_args args).1 [
  | [] ↦ err usage
  | folder ∷ rest ↦
      posted w (base_url w args ++ codes "/api/v1/builds/bulk") (bulk_parts w args folder)
]

-- cmdStatus and cmdLogs up to the request
unfoldable pub cmd_build : Bytes → Surroundings → List Bytes → Result Fault Request
unfolding request
cmd_build suffix w args = elim (parse_args args).1 [
  | [] ↦ err usage
  | id ∷ rest ↦
      ok (request w get (base_url w args ++ (codes "/api/v1/builds/" ++ (id ++ suffix))) [])
]

abbrev pub cmd_status : Surroundings → List Bytes → Result Fault Request
cmd_status = cmd_build []

abbrev pub cmd_logs : Surroundings → List Bytes → Result Fault Request
cmd_logs = cmd_build (codes "/logs")

-- cmdList up to the request
unfoldable pub cmd_list : Surroundings → List Bytes → Result Fault Request
unfolding request
cmd_list w args = ok (request w get (base_url w args ++ codes "/api/v1/builds") [])
