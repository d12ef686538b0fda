-- ===== src/Repo/Examples.antt =====
-- Tests and instances for repo.go.
use buildkit_multipartable.Base.{
  ◌≡◌, refl, ℤ, pos, List, [], ◌∷◌, some, none, true, false, codes, Bytes, ok, err, eqb_ne,
}
use buildkit_multipartable.Domain.{Build, pending, building, failed}
use buildkit_multipartable.Queue.Heap.{blank_build}
use buildkit_multipartable.Repo
use buildkit_multipartable.Repo.{Db, create, update_status, reassign_stale, gc, find_row}
use buildkit_multipartable.Repo.Steps.{updates, reassigns, here, next, creates}
use buildkit_multipartable.Repo.Shape.{IsWellFormed, empty_db, Reach-empty-IsWellFormed}
use buildkit_multipartable.Repo.Claims.{Claimed, claim_correct}
use buildkit_multipartable.Repo.Paths.{Follows, Step-Follows}

abbrev pub fresh_build : Build
fresh_build = record blank_build { id = codes "a"; status = pending; timeout_seconds = pos 600 }

abbrev pub one_pending : Db
one_pending = record {
  builds = fresh_build ∷ [];
  workers =
      record {
        id = codes "w";
        hostname = [];
        ip = [];
        status = codes "idle";
        last_heartbeat = 100;
        cache_keys = [];
      }
      ∷ [];
}

-- A claim, a silent worker, and the build is pending again.
requeued :
    let claimed = (update_status true 110 (codes "a") building (codes "w") [] [] one_pending).0 in
    Repo.find_row (codes "a") (reassign_stale true true 161 60 600 claimed).0.builds
    ≡ some (record fresh_build { updated_at = 161 })
unfolding update_status Repo.updated_rows reassign_stale find_row
    buildkit_multipartable.Base.Text.eqb
requeued = refl

collected :
    (gc true 50 (update_status true 10 (codes "a") failed [] [] (codes "x") one_pending).0).1 ≡ ok 1
unfolding gc update_status Repo.updated_rows buildkit_multipartable.Base.Text.eqb
collected = refl

pub one_pending-IsWellFormed : IsWellFormed one_pending
one_pending-IsWellFormed = record {
  keys = (tt, tt);
  rows = (record { known = refl; completed = refl; unassigned = λ _. refl }, tt);
}

Reach-empty-IsWellFormed_example :
    IsWellFormed
      (update_status true 9
        (codes "a")
        failed
        []
        []
        (codes "x")
        (update_status true 8
          (codes "a")
          building
          (codes "w")
          []
          []
          (create true 7 fresh_build empty_db).0).0).0
Reach-empty-IsWellFormed_example =
    Reach-empty-IsWellFormed
      (next
        (next (next here (creates true 7 fresh_build refl refl))
          (updates true 8 (codes "a") building (codes "w") [] []))
        (updates true 9 (codes "a") failed [] [] (codes "x")))
      (((tt, tt), refl), refl)

claim_correct_example : Claimed one_pending 110 (codes "a") (codes "w") [] [] (some fresh_build)
unfolding find_row buildkit_multipartable.Base.Text.eqb
claim_correct_example =
    claim_correct one_pending 110 (codes "a") (codes "w") [] [] one_pending-IsWellFormed.keys

Step-Follows_example :
    Follows (codes "a") fresh_build (reassign_stale true true 161 60 600 one_pending).0
unfolding find_row buildkit_multipartable.Base.Text.eqb
Step-Follows_example =
    Step-Follows (codes "a") fresh_build one_pending-IsWellFormed refl
      (reassigns true true 161 60 600) tt
