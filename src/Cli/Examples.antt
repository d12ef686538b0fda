-- ===== src/Cli/Examples.antt =====
-- Runs of main.go.
use buildkit_multipartable.Base.{
  ℕ, ◌≡◌, refl, ◌↔◌, ◌⊎◌, true, false, List, [], ◌∷◌, ◌++◌, Option, none, some, Bytes, codes, ok,
  err, if◌then◌else◌,
}
use buildkit_multipartable.Strings.{has_prefix}
use buildkit_multipartable.Archive.{Archive}
use buildkit_multipartable.Api.{form_submission}
use buildkit_multipartable.Cli.{
  Surroundings, Request, cmd_submit, parse_args, parse_loop, parse_round,
}
use buildkit_multipartable.Cli.Answers.{Json, Answer, Object, main, status_text, line}
use buildkit_multipartable.Cli.Submits.{
  Job, IsPlainJob, command_line, job_request, cmd_submit-command_line, read_form,
  form_submission-read_form,
}
use buildkit_multipartable.Cli.Exits.{IsSubmitted, main-IsSubmitted}

abbrev packed : Archive
packed = record { is_gzip = true; entries = []; broken = false }

abbrev here : Surroundings
here = record {
  getenv = λ name. [];
  read_file = λ path. some (codes "FROM x");
  tar = λ folder. some packed;
}

abbrev job : Job
job = record {
  folder = codes "app";
  tag = codes "app:1";
  dockerfile = codes "Dockerfile";
  server = codes "http://host/";
  args = (codes "K", codes "a=b") ∷ [];
}

job-IsPlainJob : IsPlainJob job
unfolding has_prefix buildkit_multipartable.Base.Text.eqb
job-IsPlainJob = record {
  folder-false = refl;
  tag-false = refl;
  dockerfile-false = refl;
  server-false = refl;
  named = refl;
  keys = ((refl, tt), tt);
}

-- The value of an unknown flag is skipped.
positional :
    (parse_args (codes "--quiet" ∷ codes "app" ∷ codes "b" ∷ codes "--arg.K=v" ∷ [])).1
    ≡ codes "b" ∷ []
unfolding parse_args parse_loop parse_round has_prefix
positional = refl

-- A build without an error, which the server sends without that key.
abbrev built : Object
built name = elim (buildkit_multipartable.Base.Text.eqb name (codes "id")) [
  | true ↦ some (codes "7")
  | false ↦ none
]

shown_error :
    status_text built
    ≡ line (codes "ID:      7")
      ++ (line (codes "Status:  <nil>")
          ++ (line (codes "Image:   <nil>") ++ line (codes "Error:   <nil>")))
unfolding status_text buildkit_multipartable.Base.Text.eqb
shown_error = refl

cmd_submit-command_line_example :
    cmd_submit here (command_line job) ≡ ok (job_request here job (codes "FROM x") packed)
cmd_submit-command_line_example =
    cmd_submit-command_line here job (codes "FROM x") packed job-IsPlainJob refl refl

form_submission-read_form_example :
    form_submission
      (codes "u")
      (job_request here job (codes "FROM x") packed).api_key
      (read_form (job_request here job (codes "FROM x") packed).parts)
    ≡ form_submission (codes "u") [] (record {
      has_context = true;
      build_id = [];
      dockerfile = codes "FROM x";
      image_tag = codes "app:1";
      user_id = [];
    })
form_submission-read_form_example =
    form_submission-read_form here job (codes "FROM x") packed (codes "u")

abbrev json : Json
json = record { object = λ body. some built; objects = λ body. none; bulk = λ body. none }

abbrev server : Request → Option Answer
server r = some (record { code = 201; body = codes "{}" })

main-IsSubmitted_example :
    ((main here json server (codes "submit" ∷ codes "app" ∷ [])).exit ≡ 0
      ↔ IsSubmitted json server (cmd_submit here (codes "app" ∷ [])))
    × (((main here json server (codes "submit" ∷ codes "app" ∷ [])).exit ≡ 0)
        ⊎ ((main here json server (codes "submit" ∷ codes "app" ∷ [])).exit ≡ 1))
main-IsSubmitted_example = main-IsSubmitted here json server (codes "app" ∷ [])
