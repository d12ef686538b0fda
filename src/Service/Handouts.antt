-- ===== src/Service/Handouts.antt =====
-- Runs of AssignBuild after each other.
use buildkit_multipartable.Base.{
  ◌≡◌, ◌≢◌, refl, pos, [], Bytes, codes, true, Option, none, some, Result, ok,
}
use buildkit_multipartable.Base
use buildkit_multipartable.Base.Sort
use buildkit_multipartable.Strings
use buildkit_multipartable.Validate
use buildkit_multipartable.Fingerprint
use buildkit_multipartable.Queue
use buildkit_multipartable.Queue.Heap
use buildkit_multipartable.Scheduler
use buildkit_multipartable.Domain.{Build}
use buildkit_multipartable.Queue.Examples.{thousandths}
use buildkit_multipartable.Service
use buildkit_multipartable.Service.{
  State, Submission, Failure, new_build, submit_begin, assign_build,
}
use buildkit_multipartable.Service.Steps.{start, here, next, begins, logs}
use buildkit_multipartable.Service.Once.{handed_out_once}

abbrev identity : Bytes → Bytes
identity s = s

abbrev submission : Bytes → Submission
submission id = record {
  build_id = id;
  ctx_key = codes "ctx";
  dockerfile = codes "FROM alpine";
  image_tag = codes "app:1";
  user_id = codes "u";
  timeout_sec = pos 600;
  args = [];
}

-- Two builds are submitted.
abbrev both : State
both =
    (submit_begin identity (codes "b") true 6 (submission (codes "b"))
      (submit_begin identity (codes "a") true 5 (submission (codes "a")) (start (pos 9))).0).0

abbrev state_of : Option (State × Result Failure (Option Build)) → State
state_of none = start (pos 9)
state_of (some p) = p.0

abbrev first : Option (State × Result Failure (Option Build))
first = assign_build thousandths true true 7 (codes "w") both

-- the first worker's log line comes in between
abbrev between : State
between = (Service.append_log true 8 (codes "a") (codes "x") (state_of first)).0

abbrev second : Option (State × Result Failure (Option Build))
second = assign_build thousandths true true 9 (codes "v") between

abbrev build_of : Option (State × Result Failure (Option Build)) → Build
build_of (some (t, ok (some b))) = b
build_of o = new_build identity [] (submission [])

both_given :
    (first ≡ some (state_of first, ok (some (build_of first))))
    × (second ≡ some (state_of second, ok (some (build_of second))))
unfolding assign_build Service.peek Service.Queue.peek_by_score Service.append_log submit_begin
    Validate.single Base.eqb Validate.validate_tag Strings.contains Strings.has_prefix Strings.count
    Strings.trim_space Strings.to_upper Validate.validate_dockerfile Validate.scan_lines
    Strings.split Validate.validate_from Validate.validate_image_ref Sort.insert Sort.sort
    Fingerprint.base_image Fingerprint.digest Fingerprint.from_dockerfile Fingerprint.hex
    Fingerprint.hex_digit Fingerprint.kind Fingerprint.scan Fingerprint.string_le
    Fingerprint.written Queue.Heap.down Queue.Heap.pop_last Queue.Heap.push Queue.Heap.remove
    Queue.Heap.swap Queue.Heap.take_out Queue.Heap.up Service.Queue.best_loop Service.Queue.combined
    Service.Queue.full Service.Queue.len Service.Queue.push Service.Repo.assign_row
    Service.Repo.create Service.Repo.find_row Service.Repo.finish_row Service.Repo.inserted_row
    Service.Repo.list_pending Service.Repo.log_row Service.Repo.update_status
    Service.Repo.update_where Service.Repo.updated_rows Scheduler.count_cached Scheduler.count_new
    Scheduler.find_worker Scheduler.overlap Scheduler.score_build_for_worker Service.claim
    Service.claimed Service.created new_build Service.push_all Service.refill Strings.index
    Strings.last_index Strings.trim_left Strings.trim_right Strings.upper Validate.add
    Validate.after_platform Validate.before_as Validate.invalid_ref Service.Queue.new Scheduler.new
both_given = (refl, refl)

handed_out_once_example : (build_of second).id ≢ (build_of first).id
handed_out_once_example =
    handed_out_once (pos 9) thousandths true true 7 (codes "w")
      (next (next here (begins identity (codes "a") true 5 (submission (codes "a"))))
        (begins identity (codes "b") true 6 (submission (codes "b"))))
      ((tt, tt), tt) (both_given.0) (next here (logs true 8 (codes "a") (codes "x"))) (tt, tt)
      thousandths true true 9 (codes "v") (both_given.1)
