-- ===== src/Api/Submits.antt =====
-- submitBuild with a JSON body.
use buildkit_multipartable.Base.{
  ℕ, ◌≡◌, refl, subst, pos, negsuc, ℤ, ◌≤ℤ◌, false, [], Option, some, none, eqb, ◌>>=◌, arith,
  Bool-cases, inl, inr, Result,
}
use buildkit_multipartable.Domain.{Build}
use buildkit_multipartable.Queue
use buildkit_multipartable.Queue.Insert.{Pushed}
use buildkit_multipartable.Service.{State, Failure, new_build}
use buildkit_multipartable.Service.Submit.{
  Submits, stored, submit_build_correct, rejected, full_before, unanswered, duplicate, full_after,
  accepted,
}
use buildkit_multipartable.Api.{
  Response, reply, fail, SubmitRequest, Circumstances, clamp_timeout, json_submission, submit_json,
  submit_reply,
}

clamp_timeout-bounds : (t : ℤ) → (pos 1 ≤ℤ clamp_timeout t) × (clamp_timeout t ≤ℤ pos 3600)
clamp_timeout-bounds (negsuc n) = ground arith
clamp_timeout-bounds (pos n) = ground arith

module _ (c : Circumstances) (req : SubmitRequest) (s : State) where
  -- the state between insert and push
  abbrev pub between : State
  between = c.meanwhile (
      stored c.sha256 c.uuid2 c.up c.up2 c.now c.meanwhile (json_submission c.uuid c.api_key req) s)

  -- What a success promises of the state `t` and the build `b`.
  pub record Accepted (code : ℕ) (b : Build) (t : State) : Type 0 where
    pub created : code ≡ 201
    pub at_least_a_second : pos 1 ≤ℤ b.timeout_seconds
    pub at_most_an_hour : b.timeout_seconds ≤ℤ pos 3600
    pub context : eqb b.context_key [] ≡ false
    pub queued : Pushed between.queue b t.queue
    pub kept : t.db ≡ between.db

  abbrev Promises : Option (State × Response Build) → Type 0
  Promises none = Unit {0}
  Promises (some (t, fail code)) = Unit {0}
  Promises (some (t, reply code b)) = Accepted code b t

  abbrev answer : Option (State × Result Failure Build) → Option (State × Response Build)
  answer o = o >>= (λ p. some (submit_reply p))

  Submits-Promises :
      eqb req.context_key [] ≡ false
      → {o : Option (State × Result Failure Build)}
      → Submits c.sha256 c.uuid2 c.up c.up2 c.now c.meanwhile
          (json_submission c.uuid c.api_key req)
          s
          o
      → Promises (answer o)
  unfolding submit_reply new_build json_submission
  Submits-Promises h (rejected bad) = tt
  Submits-Promises h (full_before good f) = tt
  Submits-Promises h (unanswered good f down) = tt
  Submits-Promises h (duplicate good f r e) = tt
  Submits-Promises h (full_after f d p) = tt
  Submits-Promises h (accepted good f row q p) =
      let (low, high) = clamp_timeout-bounds req.timeout_seconds in
      record {
        created = refl;
        at_least_a_second = low;
        at_most_an_hour = high;
        context = h;
        queued = p;
        kept = refl;
      }

  -- A JSON submission that is answered with a success gets the status code 201, a context key that is not
  -- empty and a timeout from 1 to 3600 seconds; the build is in the queue, and the tables are those that
  -- the insert and the calls after it left.
  pub submit_json-Accepted :
      Queue.IsValid between.queue
      → (t : State) (code : ℕ) (b : Build) → submit_json c (some req) s ≡ some (t, reply code b)
      → Accepted code b t
  unfolding submit_json
  submit_json-Accepted v t code b e = subst Promises e (elim (Bool-cases (eqb req.context_key [])) [
    | inl missing ↦ rw missing tt
    | inr given ↦ rw given (
        Submits-Promises given (
          submit_build_correct c.sha256 c.uuid2 c.up c.up2 c.now c.meanwhile
            (json_submission c.uuid c.api_key req) s v))
  ])
