-- ===== src/Service/Examples.antt =====
-- Runs of service.go.
use buildkit_multipartable.Base.{refl, pos, [], Bytes, codes, true}
use buildkit_multipartable.Domain.{succeeded}
use buildkit_multipartable.Queue
use buildkit_multipartable.Queue.Insert.{new-IsValid}
use buildkit_multipartable.Queue.Examples.{thousandths}
use buildkit_multipartable.Repo.{list_pending}
use buildkit_multipartable.Repo.Shape.{empty_db}
use buildkit_multipartable.Repo.Examples.{one_pending, one_pending-IsWellFormed}
use buildkit_multipartable.Scheduler
use buildkit_multipartable.Service.{
  State, Submission, submit_build, assign_build, cancel_build, complete_build,
}
use buildkit_multipartable.Service.Submit.{Submits, submit_build_correct}
use buildkit_multipartable.Service.Assign.{Assigns, assign_build_hands_out}
use buildkit_multipartable.Service.Finish.{
  Cancels, cancel_build_correct, Completes, complete_build_correct, Warms, warm_queue_correct,
}

abbrev identity : Bytes → Bytes
identity s = s

abbrev idle : State → State
idle s = s

abbrev fresh : State
fresh = record { db = empty_db; queue = Queue.new (pos 2); scheduler = Scheduler.new }

-- The tables hold a pending build that the queue does not know.
abbrev restarted : State
restarted = record fresh { db = one_pending }

abbrev submission : Submission
submission = record {
  build_id = codes "b1";
  ctx_key = codes "ctx";
  dockerfile = codes "FROM alpine\nRUN x";
  image_tag = codes "app:1";
  user_id = codes "u";
  timeout_sec = pos 600;
  args = [];
}

submit_build_correct_example :
    Submits identity
      (codes "b2")
      true
      true
      5
      idle
      submission
      fresh
      (submit_build identity (codes "b2") true true 5 idle submission fresh)
submit_build_correct_example =
    submit_build_correct identity (codes "b2") true true 5 idle submission fresh
      (new-IsValid (pos 2))

assign_build_hands_out_example :
    Assigns thousandths true true 7
      (codes "w")
      restarted
      (assign_build thousandths true true 7 (codes "w") restarted)
assign_build_hands_out_example =
    assign_build_hands_out thousandths true true 7 (codes "w") restarted (new-IsValid (pos 2))
      one_pending-IsWellFormed.keys

cancel_build_correct_example :
    Cancels true true 7 (codes "a") restarted (cancel_build true true 7 (codes "a") restarted)
cancel_build_correct_example =
    cancel_build_correct true true 7 (codes "a") restarted (new-IsValid (pos 2))

complete_build_correct_example :
    Completes true 7
      (codes "a")
      succeeded
      []
      restarted
      (complete_build true true 7 (codes "a") succeeded [] restarted)
complete_build_correct_example =
    complete_build_correct true 7 (codes "a") succeeded [] restarted refl

warm_queue_correct_example : Warms true restarted (list_pending true restarted.db)
warm_queue_correct_example = warm_queue_correct true restarted (new-IsValid (pos 2))
