-- ===== src/Worker/Runs.antt =====
-- Runs of tryExecuteBuild, completeBuild and Run.
use buildkit_multipartable.Base.{
  eqb, ℕ, ◌+◌, ◌-◌, ◌≤◌, ◌≡◌, refl, ◌↔◌, ◌⊎◌, pos, negsuc, true, false, List, [], ◌∷◌, ◌++◌, Option,
  none, some, Bytes, codes, ok, err, length, any, take, some_inj, subst, arith,
}
use buildkit_multipartable.Domain.{Build, building}
use buildkit_multipartable.Archive.{Archive, Tree}
use buildkit_multipartable.Blobs.Examples.{device}
use buildkit_multipartable.Worker.{complete_build}
use buildkit_multipartable.Worker.Execute.{
  Worker, Attempt, no_client, Report, assigned, try_execute_build, build_timeout,
}
use buildkit_multipartable.Worker.Reports.{Settles, try_execute_build_correct}
use buildkit_multipartable.Worker.Retries.{is_ok, complete_build_delivers, send_log, send_loop}
use buildkit_multipartable.Worker.Loop.{
  start, poll, heartbeat_status, here, then_step, polls, Reach-start-Idle,
}

abbrev job : Build
job = record {
  id = codes "b1";
  status = building;
  fingerprint = codes "0123456789abcdef";
  worker_id = codes "w";
  context_key = codes "contexts/b1.tar.gz";
  dockerfile = codes "FROM x";
  image_tag = codes "t";
  args = [];
  instructions = codes "RUN a" ∷ [];
  logs = [];
  error = [];
  retry_count = pos 0;
  max_retries = pos 2;
  timeout_seconds = pos 60;
  user_id = [];
  priority = pos 0;
  cache_hit_rate = record { num = negsuc 0; den = 1 };
  created_at = 0;
  updated_at = 0;
  completed_at = none;
}

abbrev worker : Worker
worker = record { work_dir = codes "/w"; cache_registry = codes "reg"; cache_keys = [] }

abbrev packed : Archive
packed = record { is_gzip = true; entries = []; broken = false }

abbrev attempt : Attempt
attempt = record {
  next = some (200, some job);
  makes_folder = true;
  s3 = no_client;
  context = some (200, packed);
  device = device;
  first_check = none;
  has_buildctl = true;
  run = λ timeout opts. ok (record { num = pos 100; den = 1 });
  past_deadline = false;
  stays = λ p. eqb p (codes "/w/builds/b1/pinned");
  last_check = none;
}

abbrev disk : Tree
disk = record { files = []; dirs = [] }

-- The product with 10 ^ 9 wraps around to a number that is not positive.
long_timeout : build_timeout (pos 9300000000) ≡ pos 600000000000
unfolding build_timeout
long_timeout = refl

assigned_job : (b : Build) → assigned attempt.next ≡ some b → 16 ≤ length b.fingerprint
unfolding assigned buildkit_multipartable.Base.Text.eqb
assigned_job b e = subst (λ (c : Build). 16 ≤ length c.fingerprint) (some_inj e) (omega arith)

try_execute_build_correct_example :
    ((assigned attempt.next ≡ none)
      × (try_execute_build worker attempt disk ≡ some ((worker, none), disk)))
    ⊎ ((b : Build) × (r : (Worker × Option Report) × Tree) × (assigned attempt.next ≡ some b)
        × (try_execute_build worker attempt disk ≡ some r)
        × Settles worker attempt b disk r)
try_execute_build_correct_example = try_execute_build_correct worker attempt disk assigned_job

abbrev answers : List (Option ℕ)
answers = none ∷ some 500 ∷ some 200 ∷ []

complete_build_delivers_example :
    ((complete_build answers).0 ≡ any is_ok (take 3 answers))
    × ((complete_build answers).0 ≡ false → (complete_build answers).1 ≡ 3)
    × ((complete_build answers).1 ≤ 3)
    × (any is_ok (take ((complete_build answers).1 - 1) answers) ≡ false)
complete_build_delivers_example = complete_build_delivers answers

given_up : send_log ((false, some 500) ∷ (true, some 200) ∷ []) ≡ (false, 1)
unfolding send_log send_loop
given_up = refl

Reach-start-Idle_example :
    ((poll start).attempts ≤ 1)
    × ((heartbeat_status (poll start) ≡ codes "idle") ↔ ((poll start).attempts ≡ 0))
Reach-start-Idle_example = Reach-start-Idle (poll start) (then_step here polls)
