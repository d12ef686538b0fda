-- ===== src/Cli/Submits.antt =====
-- cmdSubmit on a full command line, and the form that the server reads from its request.
use buildkit_multipartable.Base.{
  ◌≡◌, refl, Bool, true, false, List, [], ◌∷◌, ◌++◌, map, some, Bytes, codes, eqb, All,
  if◌then◌else◌, ok,
}
use buildkit_multipartable.Strings.{has_prefix, trim_right_of}
use buildkit_multipartable.Paths.{join_path}
use buildkit_multipartable.Archive.{Archive}
use buildkit_multipartable.Api.{SubmitForm, form_submission}
use buildkit_multipartable.Cli.{
  is_flag, server_flag, get_server_url, parse_round, parse_loop, parse_args, kv_flag, Part, field,
  file_part, arg_fields, post, Request, request, Surroundings, submit_parts, cmd_submit,
}
use buildkit_multipartable.Cli.Flags.{
  arg_flag, arg_part, NoEquals, flag_other, flag_no_arg, prefix_other, arg_fields-arg_flag,
  parse_loop-arg_flag,
}

-- what a user asks for
pub record Job : Type 0 where
  pub folder : Bytes
  pub tag : Bytes
  pub dockerfile : Bytes
  pub server : Bytes
  pub args : List (Bytes × Bytes)

-- Only build arguments may begin with "--", and their keys have no "=".
pub record IsPlainJob (j : Job) : Type 0 where
  pub folder-false : is_flag j.folder ≡ false
  pub tag-false : is_flag j.tag ≡ false
  pub dockerfile-false : is_flag j.dockerfile ≡ false
  pub server-false : is_flag j.server ≡ false
  pub named : eqb j.dockerfile [] ≡ false
  pub keys : All (λ kv. NoEquals kv.0) j.args

-- the arguments for the command "submit"
unfoldable pub command_line : Job → List Bytes
command_line j =
    j.folder
    ∷ codes "--tag"
    ∷ j.tag
    ∷ codes "--dockerfile"
    ∷ j.dockerfile
    ∷ codes "--server"
    ∷ j.server
    ∷ map arg_flag j.args

module _ (j : Job) (h : IsPlainJob j) where
  parse_args-command_line : (parse_args (command_line j)).1 ≡ j.folder ∷ []
  unfolding parse_args parse_loop parse_round command_line has_prefix
  parse_args-command_line =
      rw
        (
          flag_no_arg j.folder h.folder-false,
          h.folder-false,
          h.tag-false,
          h.dockerfile-false,
          h.server-false,
        )
        (parse_loop-arg_flag j.args [] (j.folder ∷ []))

  kv_flag-tag : kv_flag (codes "--tag") (command_line j) ≡ j.tag
  unfolding kv_flag command_line has_prefix eqb
  kv_flag-tag = rw (flag_other j.folder (codes "tag") h.folder-false, h.tag-false) refl

  kv_flag-dockerfile : kv_flag (codes "--dockerfile") (command_line j) ≡ j.dockerfile
  unfolding kv_flag command_line has_prefix eqb
  kv_flag-dockerfile =
      rw
        (
          flag_other j.folder (codes "dockerfile") h.folder-false,
          flag_other j.tag (codes "dockerfile") h.tag-false,
          h.dockerfile-false,
        )
        refl

  get_server_url-command_line :
      (getenv : Bytes → Bytes) → get_server_url getenv (command_line j) ≡ j.server
  unfolding get_server_url server_flag command_line has_prefix eqb
  get_server_url-command_line getenv =
      rw
        (
          get_server_url,
          flag_other j.folder (codes "server") h.folder-false,
          flag_other j.tag (codes "server") h.tag-false,
          flag_other j.dockerfile (codes "server") h.dockerfile-false,
        )
        refl

  arg_fields-command_line : arg_fields (command_line j) ≡ map arg_part j.args
  unfolding arg_fields command_line has_prefix
  arg_fields-command_line =
      rw
        (
          flag_no_arg j.folder h.folder-false,
          flag_no_arg j.tag h.tag-false,
          flag_no_arg j.dockerfile h.dockerfile-false,
          flag_no_arg j.server h.server-false,
        )
        (arg_fields-arg_flag j.args h.keys)

-- the request for a job, with the content of its Dockerfile and its packed folder
abbrev pub job_request : Surroundings → Job → Bytes → Archive → Request
job_request w j content a = record {
  method = post;
  url = trim_right_of b'/' j.server ++ codes "/api/v1/builds";
  parts =
      file_part (codes "context") (codes "context.tar.gz") a
      ∷ field (codes "dockerfile") content
      ∷ field (codes "image_tag") j.tag
      ∷ map arg_part j.args;
  api_key = w.getenv (codes "DTBUILD_API_KEY");
}

-- For a job in which only build arguments begin with "--" and their keys have no "=", if the Dockerfile
-- can be read and the folder packed, `submit` with the job's arguments sends one POST to the job's server,
-- with the archive, the content of the Dockerfile, the tag, and a field for each build argument, in order.
pub cmd_submit-command_line :
    (w : Surroundings) (j : Job) (content : Bytes) (a : Archive)
    → IsPlainJob j
    → w.read_file (join_path j.folder j.dockerfile) ≡ some content
    → w.tar j.folder ≡ some a
    → cmd_submit w (command_line j) ≡ ok (job_request w j content a)
unfolding cmd_submit submit_parts request
cmd_submit-command_line w j content a h r t =
    rw
      (
        cmd_submit,
        parse_args-command_line j h,
        submit_parts,
        get_server_url-command_line j h w.getenv,
        kv_flag-dockerfile j h,
        h.named,
        r,
        t,
        kv_flag-tag j h,
        arg_fields-command_line j h,
      )
      refl

-- r.FormValue
unfoldable pub form_value : Bytes → List Part → Bytes
form_value name [] = []
form_value name (file_part n filename a ∷ parts) = form_value name parts
form_value name (field n v ∷ parts) =
    let rest = form_value name parts in if eqb n name then v else rest

-- r.FormFile, whether there is one
unfoldable pub has_file : Bytes → List Part → Bool
has_file name [] = false
has_file name (file_part n filename a ∷ parts) =
    let rest = has_file name parts in if eqb n name then true else rest
has_file name (field n v ∷ parts) = has_file name parts

-- submitBuild: the form that it reads
unfoldable pub read_form : List Part → SubmitForm
unfolding form_value has_file
read_form parts = record {
  has_context = has_file (codes "context") parts;
  build_id = form_value (codes "build_id") parts;
  dockerfile = form_value (codes "dockerfile") parts;
  image_tag = form_value (codes "image_tag") parts;
  user_id = form_value (codes "user_id") parts;
}

form_value-arg_part :
    (name : Bytes) (kvs : List (Bytes × Bytes))
    → has_prefix name (codes "arg.") ≡ false
    → form_value name (map arg_part kvs) ≡ []
unfolding form_value
form_value-arg_part name [] h = refl
form_value-arg_part name (kv ∷ kvs) h =
    rw (prefix_other (codes "arg.") kv.0 name h) (form_value-arg_part name kvs h)

-- What the server makes of a job's request: a submission of the content of the Dockerfile under the tag,
-- for the user of the API key, whatever the build arguments of the job, none of which it has.
pub form_submission-read_form :
    (w : Surroundings) (j : Job) (content : Bytes) (a : Archive) (uuid : Bytes)
    → form_submission uuid
        (job_request w j content a).api_key
        (read_form (job_request w j content a).parts)
      ≡ form_submission uuid (w.getenv (codes "DTBUILD_API_KEY")) (record {
        has_context = true;
        build_id = [];
        dockerfile = content;
        image_tag = j.tag;
        user_id = [];
      })
unfolding read_form form_value has_file eqb has_prefix
form_submission-read_form w j content a uuid =
    rw
      (
        read_form,
        form_value-arg_part (codes "build_id") j.args refl,
        form_value-arg_part (codes "user_id") j.args refl,
      )
      refl
