-- ===== src/Service/Once.antt =====
-- How often a build is handed out.
use buildkit_multipartable.Base.{
  ℕ, ◌≡◌, ◌≢◌, refl, sym, ◌∙◌, ap, subst, Bool, true, false, Option, none, some, [], Bytes, eqb, ℤ,
  Result, ok, err, Float64,
}
use mathlib.Core.Bool.{true≢false}
use buildkit_multipartable.Domain.{Build}
use buildkit_multipartable.Queue.{Queue}
use buildkit_multipartable.Repo.{Db, find_row, assign_row}
use buildkit_multipartable.Repo.Claims.{is_free}
use buildkit_multipartable.Repo.Taken.{IsTaken, update_status-IsTaken, gc-IsTaken}
use buildkit_multipartable.Repo.Steps.{is_report}
use buildkit_multipartable.Service.{
  State, Failure, new_build, assign_build, complete_build, append_log, gc_completed, warm_queue,
}
use buildkit_multipartable.Service.Assign.{
  assign_build_hands_out, Assigns, Ends, nothing, from_queue, from_db, lost, won,
}
use buildkit_multipartable.Service.Sound.{IsSound}
use buildkit_multipartable.Service.Taken.{
  taken_in, submit_begin-IsTaken, submit_finish-TakenIn, completed-IsTaken, warm_with-TakenIn,
  heartbeat-IsTaken, prune_stale-IsTaken, cancel_build-TakenIn, assign_build-TakenIn,
}
use buildkit_multipartable.Repo
use buildkit_multipartable.Service.Steps.{
  Reach, here, next, Step, begins, finishes, assigns, completes, cancels, warms, logs, heartbeats,
  prunes, reassigns, collects, Reach-IsSound, Reach-start-IsSound, start, Step-IsSound, Reported,
  AllReported,
}

-- A call that neither submits the build nor reassigns the builds of stale workers, and completes no build
-- with a status that is not terminal, building or none.
abbrev pub IsQuiet : Bytes → {s t : State} → Step s t → Type 0
IsQuiet id (begins sha256 uuid up now sub) = eqb (new_build sha256 uuid sub).id id ≡ false
IsQuiet id (reassigns up up2 now worker_timeout build_timeout) = ⊥
IsQuiet id (completes up up2 now i status msg) = is_report status ≡ true
IsQuiet id _ = Unit {0}

abbrev pub AllQuiet : Bytes → {s t : State} → Reach s t → Type 0
AllQuiet id here = Unit {0}
AllQuiet id (next r step) = AllQuiet id r × IsQuiet id step

Step-IsTaken :
    {s t : State} (id : Bytes) (step : Step s t)
    → IsSound s
    → IsQuiet id step
    → IsTaken id s.db
    → IsTaken id t.db
unfolding complete_build append_log gc_completed warm_queue
Step-IsTaken {s} id (begins sha256 uuid up now sub) sound q v =
    submit_begin-IsTaken id s v sha256 uuid up now sub q
Step-IsTaken {s} id (finishes up now b r e) sound q v =
    taken_in id (submit_finish-TakenIn id s v up now b) e
Step-IsTaken {s} id (assigns fl up up2 now worker_id r e) sound q v =
    taken_in id (assign_build-TakenIn id fl up up2 now worker_id s v) e
Step-IsTaken {s} id (completes up up2 now i status msg) sound q v =
    completed-IsTaken id s v up2 i _ (update_status-IsTaken id s.db v up now i status [] [] msg q)
Step-IsTaken {s} id (cancels up up2 now i r e) sound q v =
    taken_in id (cancel_build-TakenIn id s v up up2 now i) e
Step-IsTaken {s} id (warms up r e) sound q v =
    taken_in id (warm_with-TakenIn id s v (Repo.list_pending up s.db)) e
Step-IsTaken {s} id (logs up now i line) sound q v =
    update_status-IsTaken id s.db v up now i _ [] line [] refl
Step-IsTaken {s} id (heartbeats up now w) sound q v = heartbeat-IsTaken id s v up now w
Step-IsTaken {s} id (prunes up now max_age) sound q v = prune_stale-IsTaken id s v up now max_age
Step-IsTaken {s} id (reassigns up up2 now worker_timeout build_timeout) sound q v = absurd q
Step-IsTaken {s} id (collects up before) sound q v = gc-IsTaken id s.db v up before sound.db.keys

IsQuiet-Reported : {s t : State} (id : Bytes) (step : Step s t) → IsQuiet id step → Reported step
IsQuiet-Reported id (completes up up2 now i status msg) q = q
IsQuiet-Reported id (begins sha256 uuid up now sub) q = tt
IsQuiet-Reported id (finishes up now b r e) q = tt
IsQuiet-Reported id (assigns fl up up2 now worker_id r e) q = tt
IsQuiet-Reported id (cancels up up2 now i r e) q = tt
IsQuiet-Reported id (warms up r e) q = tt
IsQuiet-Reported id (logs up now i line) q = tt
IsQuiet-Reported id (heartbeats up now w) q = tt
IsQuiet-Reported id (prunes up now max_age) q = tt
IsQuiet-Reported id (reassigns up up2 now worker_timeout build_timeout) q = tt
IsQuiet-Reported id (collects up before) q = tt

AllQuiet-AllReported : {s t : State} (id : Bytes) (r : Reach s t) → AllQuiet id r → AllReported r
AllQuiet-AllReported id here q = tt
AllQuiet-AllReported id (next r step) q =
    (AllQuiet-AllReported id r q.0, IsQuiet-Reported id step q.1)

Reach-IsTaken :
    {s t : State} (id : Bytes) (r : Reach s t)
    → IsSound s
    → AllQuiet id r
    → IsTaken id s.db
    → IsTaken id t.db
Reach-IsTaken id here sound q v = v
Reach-IsTaken id (next r step) sound q v =
    Step-IsTaken id step (Reach-IsSound sound r (AllQuiet-AllReported id r q.0)) q.1
      (Reach-IsTaken id r sound q.0 v)

module _ (s : State) where
  -- A build that is handed out was free, and is taken in the state that is left.
  Hands : Option (State × Result Failure (Option Build)) → Type 0
  Hands none = Unit
  Hands (some (t, err e)) = Unit
  Hands (some (t, ok none)) = Unit
  Hands (some (t, ok (some b))) = (is_free (find_row b.id s.db.builds) ≡ true) × IsTaken b.id t.db

  Ends-Hands :
      (up2 : Bool) (now : ℕ) (worker_id : Bytes) (b : Build) (q : Queue)
      (p : State × Result Failure (Option Build))
      → Ends up2 now worker_id b (record s { queue = q }) p
      → Hands (some p)
  unfolding Hands assign_row
  Ends-Hands up2 now worker_id b q _ (lost e h) = tt
  Ends-Hands up2 now worker_id b q _ (won r db' c) =
      (ap is_free c.found ∙ c.free, ap is_free c.taken)

  assign_build-Hands :
      (fl : Float64) (up up2 : Bool) (now : ℕ) (worker_id : Bytes)
      → IsSound s
      → Hands (assign_build fl up up2 now worker_id s)
  unfolding Hands
  assign_build-Hands fl up up2 now worker_id v =
      of (assign_build_hands_out fl up up2 now worker_id s v.queue v.db.keys)
    where
      of :
          {o : Option (State × Result Failure (Option Build))}
          → Assigns fl up up2 now worker_id s o
          → Hands o
      of (nothing empty h) = tt
      of (from_queue t q removed {p} e) = Ends-Hands up2 now worker_id t.build q p e
      of (from_db empty filled count f t q removed free {p} e) =
          Ends-Hands up2 now worker_id t.build q p e

-- After a build is handed out to a worker, no call of AssignBuild hands it out again, to whatever
-- worker, as long as the calls in between, in any order and with any failures of the database, do not
-- reassign the builds of stale workers and do not submit a build of the same id. Every completion, before
-- and in between, reports a terminal status, building or none.
pub handed_out_once :
    (max_len : ℤ) {s t u w : State} {b c : Build} (fl : Float64) (up up2 : Bool) (now : ℕ)
    (worker_id : Bytes)
    → (reach : Reach (start max_len) s) → AllReported reach
    → assign_build fl up up2 now worker_id s ≡ some (t, ok (some b))
    → (r : Reach t u) → AllQuiet b.id r
    → (fl' : Float64) (up' up2' : Bool) (now' : ℕ) (other : Bytes)
    → assign_build fl' up' up2' now' other u ≡ some (w, ok (some c))
    → c.id ≢ b.id
unfolding Hands
handed_out_once max_len {s} {t} {u} {w} {b} {c} fl up up2 now worker_id reach reported first r quiet
      fl' up' up2' now' other second same =
    let before = Reach-start-IsSound max_len reach reported in
    let after = Step-IsSound (assigns fl up up2 now worker_id (ok (some b)) first) tt before in
    let given_b = subst (Hands s) first (assign_build-Hands s fl up up2 now worker_id before) in
    let given_c = subst (Hands u) second (
      assign_build-Hands u fl' up' up2' now' other
        (Reach-IsSound after r (AllQuiet-AllReported b.id r quiet))) in
    let still = Reach-IsTaken b.id r after quiet given_b.1 in
    true≢false (sym given_c.0 ∙ ap (λ i. is_free (find_row i u.db.builds)) same ∙ still)
