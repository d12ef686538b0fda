-- ===== src/Api/Examples.antt =====
-- Runs of the handlers.
use buildkit_multipartable.Base.{
  ℕ, ◌≤◌, ◌≡◌, refl, pos, negsuc, [], ◌∷◌, Bytes, codes, some, none, true, ok, err, take, drop,
  length, Option,
}
use buildkit_multipartable.Base.Sort.{sort}
use buildkit_multipartable.Queue
use buildkit_multipartable.Queue.Insert.{new-IsValid}
use buildkit_multipartable.Repo.{newest_first}
use buildkit_multipartable.Repo.Examples.{one_pending}
use buildkit_multipartable.Scheduler
use buildkit_multipartable.Service.{State}
use buildkit_multipartable.Config.{digits}
use buildkit_multipartable.Repo.Examples.{one_pending, one_pending-IsWellFormed}
use buildkit_multipartable.Api.Server.{Server, new_server, on_gc_tick}
use buildkit_multipartable.Api.Serves.{Process, logs, IsServing, here, next, gc_ticks, streams}
use buildkit_multipartable.LogBroker.{
  subscribe, unsubscribe_mark, unsubscribe_detach, unsubscribe_close, find_sub,
}
use buildkit_multipartable.LogBroker.Steps as Logs
use buildkit_multipartable.Api.Sound.{quiet, Appends, start_of, server_serves}
use buildkit_multipartable.Api.{
  reply, scan_int, digit_prefix, query_int, page_limit, page_offset, list_builds, SubmitRequest,
  Circumstances, json_submission, submit_json, submit_reply,
}
use buildkit_multipartable.Api.Submits.{Accepted, between, submit_json-Accepted}
use buildkit_multipartable.Domain.{Build}
use buildkit_multipartable.Queue.Heap
use buildkit_multipartable.Repo.Shape.{empty_db}
use buildkit_multipartable.Repo.{create, find_row, inserted_row}
use buildkit_multipartable.Service.{submit_build, submit_begin, submit_finish, created, new_build}
use buildkit_multipartable.Service.Submit.{submitted}
use buildkit_multipartable.Validate.{single, validate_tag}
use buildkit_multipartable.Strings.{trim_space, has_prefix, contains, index, count, to_upper}
use buildkit_multipartable.Api.Lists.{list_builds-page}

abbrev sample : State
sample = record { db = one_pending; queue = Queue.new (pos 2); scheduler = Scheduler.new }

large_limit : page_limit (codes " 1000x") ≡ 200
unfolding page_limit query_int scan_int digit_prefix digits buildkit_multipartable.Base.Text.eqb
large_limit = refl

bad_limit : page_limit (codes "-3") ≡ 20
unfolding page_limit query_int scan_int digit_prefix digits buildkit_multipartable.Base.Text.eqb
bad_limit = refl

list_builds-page_example :
    (1 ≤ page_limit (codes "5"))
    × (page_limit (codes "5") ≤ 200)
    × (list_builds true true (codes "5") (codes "1") sample
        ≡ reply 200 (record {
          builds =
              take
                (page_limit (codes "5"))
                (drop (page_offset (codes "1")) (sort newest_first sample.db.builds));
          total = length sample.db.builds;
          limit = page_limit (codes "5");
          offset = page_offset (codes "1");
        }))
unfolding page_limit page_offset query_int scan_int digit_prefix digits
    buildkit_multipartable.Base.Text.eqb
list_builds-page_example = list_builds-page (codes "5") (codes "1") sample

abbrev empty : State
empty = record { db = empty_db; queue = Queue.new (pos 2); scheduler = Scheduler.new }

abbrev calm : Circumstances
calm = record {
  sha256 = λ s. [];
  uuid = codes "u1";
  uuid2 = codes "u2";
  up = true;
  up2 = true;
  now = 5;
  meanwhile = λ s. s;
  api_key = codes "k";
}

abbrev request : SubmitRequest
request = record {
  build_id = [];
  context_key = codes "ctx";
  dockerfile = [];
  image_tag = codes "app";
  user_id = [];
  timeout_seconds = pos 9000;
  args = [];
}

abbrev build : Build
build =
    submitted calm.sha256 calm.uuid2 true true 5 calm.meanwhile
      (json_submission calm.uuid calm.api_key request) empty

abbrev after : State
after = record (between calm request empty) {
  queue = record { heap = Queue.task build ∷ []; max_len = pos 2 };
}

submit_json-Accepted_example : Accepted calm request empty 201 build after
unfolding json_submission submit_json submit_reply submit_build submit_begin submit_finish created
    create find_row inserted_row new_build single validate_tag trim_space has_prefix contains index
    count to_upper Queue.push Queue.full Queue.len Queue.new Heap.push Heap.up
    buildkit_multipartable.Base.Text.eqb
submit_json-Accepted_example =
    submit_json-Accepted calm request empty (new-IsValid (pos 2)) after 201 build refl

-- A server starts on a pending build, a viewer of it comes and goes, and an hour passes.
abbrev begun : Server
begun = start_of true one_pending

abbrev viewed : Logs.Running
viewed =
    Logs.moved 1 (Logs.watching (codes "a")) (subscribe (codes "a") 1 begun.broker)
      (logs (quiet begun))

abbrev marked : Logs.Running
marked = Logs.moved 1 (Logs.marked (codes "a")) (unsubscribe_mark 1 viewed.broker) viewed

abbrev detached : Logs.Running
detached = Logs.moved 1 Logs.detached (unsubscribe_detach (codes "a") 1 marked.broker) marked

abbrev gone : Logs.Running
gone = Logs.moved 1 Logs.closed (unsubscribe_close 1 detached.broker) detached

abbrev process : Logs.Running → Process
process r = record { server = record begun { broker = r.broker }; stage = r.stage }

abbrev hour_later : Process
hour_later = record (process gone) { server = on_gc_tick true (pos 0) 3600 (process gone).server }

server_serves_example :
    (new_server true one_pending ≡ some begun)
    × IsServing hour_later
    × Appends true 3601 (codes "a") (codes "x") hour_later
unfolding find_sub new_server buildkit_multipartable.Service.warm_queue
    buildkit_multipartable.Repo.list_pending buildkit_multipartable.Service.push_all sort Queue.push
    Queue.full Queue.new Heap.push Heap.up buildkit_multipartable.LogBroker.new_log_broker
server_serves_example =
    server_serves true true one_pending 3601 (codes "a") (codes "x") one_pending-IsWellFormed
      (next
        (next
          (next
            (next (next here (streams (Logs.subscribes (codes "a") 1 refl refl)))
              (streams (Logs.marks (codes "a") 1 refl)))
            (streams (Logs.detaches (codes "a") 1 refl)))
          (streams (Logs.closes 1 refl)))
        (gc_ticks true (pos 0) 3600))
      (((((tt, tt), tt), tt), tt), tt)
