-- ===== src/Cli/Answers.antt =====
-- server/cmd/dtbuild/main.go: what the commands do with the server's answer, and main. The decoders of
-- encoding/json are parameters; a decoded value is the text that fmt prints for it.
use buildkit_multipartable.Base.{
  ℕ, zero, suc, ◌-◌, Bool, true, not, List, [], ◌∷◌, ◌++◌, Option, none, some, Bytes, codes, eqb,
  length, ◌==◌, if◌then◌else◌, Result, ok, err,
}
use buildkit_multipartable.Strings.{decimal}
use buildkit_multipartable.Cli.{
  Request, Surroundings, Fault, cmd_submit, cmd_submit_bulk, cmd_status, cmd_logs, cmd_list,
}

-- an object: the printed value of each key that it has
abbrev pub Object : Type 0
Object = Bytes → Option Bytes

pub record Bulk : Type 0 where
  pub count : ℕ
  pub builds : List (Bytes × Bytes)

pub record Json : Type 0 where
  pub object : Bytes → Option Object
  pub objects : Bytes → Option (List Object)
  pub bulk : Bytes → Option Bulk

pub record Answer : Type 0 where
  pub code : ℕ
  pub body : Bytes

-- the exit code, and what is written to the standard output
pub record Outcome : Type 0 where
  pub exit : ℕ
  pub stdout : Bytes

abbrev pub fails : Outcome
fails = record { exit = 1; stdout = [] }

abbrev pub prints : Bytes → Outcome
prints text = record { exit = 0; stdout = text }

-- %v of a key, `<nil>` if it is missing
abbrev pub shown : Option Bytes → Bytes
shown none = codes "<nil>"
shown (some v) = v

-- %s of a key
abbrev pub shown_s : Option Bytes → Bytes
shown_s none = codes "%!s(<nil>)"
shown_s (some v) = v

abbrev pub line : Bytes → Bytes
line text = text ++ 10 ∷ []

-- cmdSubmit from the answer on
unfoldable pub end_submit : Json → Answer → Outcome
end_submit json a = elim (json.object a.body) [
  | none ↦ fails
  | some m ↦
      if not (a.code == 201)
      then fails
      else prints (line (codes "Build submitted: " ++ shown_s (m (codes "id"))))
]

unfoldable pub bulk_lines : List (Bytes × Bytes) → Bytes
bulk_lines [] = []
bulk_lines (b ∷ bs) = line (codes "  " ++ (b.0 ++ (codes "  " ++ b.1))) ++ bulk_lines bs

-- cmdSubmitBulk from the answer on
unfoldable pub end_bulk : Json → Answer → Outcome
unfolding bulk_lines
end_bulk json a = if not (a.code == 201) then fails else elim (json.bulk a.body) [
  | none ↦ fails
  | some b ↦
      prints
        (line (codes "Created " ++ (decimal b.count ++ codes " builds:")) ++ bulk_lines b.builds)
]

-- build["error"] != "": a missing key is no empty string
abbrev pub has_error : Option Bytes → Bool
has_error none = true
has_error (some v) = not (eqb v [])

unfoldable pub status_text : Object → Bytes
status_text m =
    line (codes "ID:      " ++ shown (m (codes "id")))
    ++ (line (codes "Status:  " ++ shown (m (codes "status")))
        ++ (line (codes "Image:   " ++ shown (m (codes "image_tag")))
            ++ (if has_error (m (codes "error"))
                then line (codes "Error:   " ++ shown (m (codes "error")))
                else [])))

-- cmdStatus from the answer on
unfoldable pub end_status : Json → Answer → Outcome
unfolding status_text
end_status json a =
    if a.code == 404
    then prints (line (codes "build not found"))
    else elim (json.object a.body) [ none ↦ fails | some m ↦ prints (status_text m) ]

-- cmdLogs from the answer on
unfoldable pub end_logs : Json → Answer → Outcome
end_logs json a = prints a.body

unfoldable pub spaces : ℕ → Bytes
spaces zero = []
spaces (suc n) = b' ' ∷ spaces n

unfoldable pub list_lines : List Object → Bytes
unfolding spaces
list_lines [] = []
list_lines (m ∷ ms) =
    let status = shown (m (codes "status")) in
    line (
      shown (m (codes "id"))
      ++ (codes "  "
          ++ (status
              ++ (spaces (12 - length status) ++ (codes "  " ++ shown (m (codes "image_tag")))))))
    ++ list_lines ms

-- cmdList from the answer on
unfoldable pub end_list : Json → Answer → Outcome
unfolding list_lines
end_list json a = elim (json.objects a.body) [ none ↦ fails | some ms ↦ prints (list_lines ms) ]

-- a command: its request, the server's answer, if there is one, and its end
unfoldable pub run :
    (Json → Answer → Outcome) → Json → (Request → Option Answer) → Result Fault Request → Outcome
run finish json server (err e) = fails
run finish json server (ok r) = elim (server r) [ none ↦ fails | some a ↦ finish json a ]

abbrev pub usage_text : Bytes
usage_text =
    line (codes "dtbuild " ++ (226 ∷ 128 ∷ 148 ∷ codes " distributed BuildKit image builder"))
    ++ (line []
        ++ (line (codes "Usage:")
            ++ (line (
                  codes
                    "  dtbuild submit <folder> [--tag <image:tag>] [--dockerfile <path>] [--arg.<key>=<value>...]\")")
                ++ (line (codes "  dtbuild status <build-id> [--server <url>]")
                    ++ (line (codes "  dtbuild logs   <build-id> [--server <url>]")
                        ++ line (codes "  dtbuild list   [--server <url>]"))))))

-- main, on os.Args[1:]
unfoldable pub main : Surroundings → Json → (Request → Option Answer) → List Bytes → Outcome
unfolding run end_submit end_bulk end_status end_logs end_list
main w json server [] = record { exit = 1; stdout = usage_text }
main w json server (cmd ∷ args) =
    if eqb cmd (codes "submit")
    then run end_submit json server (cmd_submit w args)
    else if eqb cmd (codes "submit-bulk")
    then run end_bulk json server (cmd_submit_bulk w args)
    else if eqb cmd (codes "status")
    then run end_status json server (cmd_status w args)
    else if eqb cmd (codes "logs")
    then run end_logs json server (cmd_logs w args)
    else if eqb cmd (codes "list")
    then run end_list json server (cmd_list w args)
    else record { exit = 1; stdout = usage_text }
