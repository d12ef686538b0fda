-- ===== src/Worker/Reports.antt =====
-- tryExecuteBuild: the report of an attempt, and what is left of it.
use buildkit_multipartable.Base.{
  Bool, not, ◌&&◌, ℕ, ℤ, ◌≤◌, ◌≡◌, refl, ◌∙◌, subst, ◌⊎◌, true, false, [], ◌∷◌, ◌++◌, Option, none,
  some, Bytes, eqb, eqb_iff, length, take, arith, Bool-cases, Option-cases, inl, inr, Result, ok,
  err, Files, read, ◌>>=◌,
}
use buildkit_multipartable.Domain.{Build, succeeded, Rate}
use buildkit_multipartable.Archive.{Tree}
use buildkit_multipartable.Buildkit.Run.{BuildError}
use buildkit_multipartable.Worker.{add_cache_keys}
use buildkit_multipartable.Worker.Execute.{
  Worker, Attempt, Report, download_context, is_build_cancelled, build_timeout, cut, cache_ref,
  options, executed, execute_build, failure, finished, run_placed, place_and_run, context_dir,
  run_downloaded, attempt_build, assigned, try_execute_build,
}
use buildkit_multipartable.Worker.Folder.{
  is_at, Fault, build_cancelled, no_buildctl, no_folder, place_dockerfile, remove_all, removed,
}

-- No file is at the path or begins with it and a slash, but for those that stay.
abbrev pub IsGone : (Bytes → Bool) → Bytes → Files → Type 0
IsGone stays dir files = (p : Bytes) → is_at dir p ≡ true → stays p ≡ false → read p files ≡ none

remove_all-IsGone :
    (stays : Bytes → Bool) (dir : Bytes) (files : Files)
    → IsGone stays dir (remove_all stays dir files)
unfolding remove_all read
remove_all-IsGone stays dir [] p h k = refl
remove_all-IsGone stays dir (f ∷ fs) p h k = elim (Bool-cases (is_at dir f.0 && not (stays f.0))) [
  | inl gone ↦ rw gone (remove_all-IsGone stays dir fs p h k)
  | inr left ↦
      let ne : eqb f.0 p ≡ false = other p h k left in
      rw (left, ne) (remove_all-IsGone stays dir fs p h k)
]
  where
    other :
        (p : Bytes)
        → is_at dir p ≡ true
        → stays p ≡ false
        → (is_at dir f.0 && not (stays f.0)) ≡ false
        → eqb f.0 p ≡ false
    other p h k left = elim (Bool-cases (eqb f.0 p)) [
      | inr ne ↦ ne
      | inl e ↦
          let same : f.0 ≡ p = (eqb_iff f.0 p).0 e in
          let moved = subst (λ q. (is_at dir q && not (stays q)) ≡ false) same left in
          absurd (ground (arith, moved, h, k))
    ]

-- The ways in which an attempt for a build ends: the worker, the report, and the disk.
pub data Settles (w : Worker) (a : Attempt) (b : Build) (t : Tree)
    : (Worker × Option Report) × Tree → Type 0 where
  -- no folder could be made
  unmade : a.makes_folder ≡ false → Settles w a b t ((w, some (failure b no_folder)), t)
  -- a report that the build failed
  failing :
      (e : Fault) (t' : Tree)
      → IsGone a.stays (context_dir w b) t'.files
      → Settles w a b t ((w, some (failure b e)), t')
  -- a report that it succeeded, after Build did, with the build's instructions among the cache keys
  built :
      (rate : Rate) (dockerfile ref : Bytes) (t' : Tree)
      → IsGone a.stays (context_dir w b) t'.files
      → is_build_cancelled a.first_check ≡ false
      → a.run (build_timeout b.timeout_seconds) (options b (context_dir w b) dockerfile ref)
        ≡ ok rate
      → Settles w a b t (
        (
          record w { cache_keys = add_cache_keys w.cache_keys b.instructions },
          some (record { build_id = b.id; status = succeeded; error = none; cache_rate = rate }),
        ),
        t',
      )

cut-some : (n : ℕ) (s : Bytes) → n ≤ length s → cut n s ≡ some (take n s)
cut-some n s h = ground arith

cache_ref-some :
    (registry : Bytes) (b : Build)
    → 16 ≤ length b.fingerprint
    → (ref : Bytes) × (cache_ref registry b ≡ some ref)
unfolding cache_ref
cache_ref-some registry b h = elim (Bool-cases (eqb registry [])) [
  | inl e ↦ ([], rw e refl)
  | inr e ↦ (registry ++ (b'/' ∷ take 16 b.fingerprint), rw (e, cut-some 16 b.fingerprint h) refl)
]

executed-ok :
    (a : Attempt) (timeout : ℤ) (r : Result BuildError Rate) (rate : Rate)
    → executed a timeout r ≡ ok rate
    → r ≡ ok rate
unfolding executed
executed-ok a timeout (ok q) rate h = cc
executed-ok a timeout (err e) rate h = ground (arith, h)

-- executeBuild does not panic, and gives a rate only after Build did.
execute_build_lem :
    (w : Worker) (a : Attempt) (b : Build) (dir dockerfile : Bytes)
    → 16 ≤ length b.fingerprint
    → (r : Result Fault Rate) × (execute_build w a b dir dockerfile ≡ some r)
      × ((rate : Rate)
          → r ≡ ok rate
          → (is_build_cancelled a.first_check ≡ false)
            × ((ref : Bytes) × (a.run
                    (build_timeout b.timeout_seconds)
                    (options b dir dockerfile ref)
                  ≡ ok rate)))
unfolding execute_build
execute_build_lem w a b dir dockerfile h = elim (Bool-cases (is_build_cancelled a.first_check)) [
  | inl c ↦ (err build_cancelled, rw c refl, λ rate q. cc)
  | inr c ↦ elim (Bool-cases a.has_buildctl) [
    | inr m ↦ (err no_buildctl, rw (c, m) refl, λ rate q. cc)
    | inl m ↦
        let (ref, e) = cache_ref-some w.cache_registry b h in
        let timeout = build_timeout b.timeout_seconds in
        let ran = a.run timeout (options b dir dockerfile ref) in
        (
          executed a timeout ran,
          rw (c, m, e) refl,
          λ rate q. (c, (ref, executed-ok a timeout ran rate q)),
        )
  ]
]

Settled : Worker → Attempt → Build → Tree → Option ((Worker × Option Report) × Tree) → Type 0
Settled w a b t o = (r : (Worker × Option Report) × Tree) × (o ≡ some r) × Settles w a b t r

finished_lem :
    (w : Worker) (a : Attempt) (b : Build) (t t' : Tree) (dockerfile : Bytes)
    (r : Result Fault Rate)
    → ((rate : Rate)
        → r ≡ ok rate
        → (is_build_cancelled a.first_check ≡ false)
          × ((ref : Bytes) × (a.run
                  (build_timeout b.timeout_seconds)
                  (options b (context_dir w b) dockerfile ref)
                ≡ ok rate)))
    → Settled w a b t (some (finished w b r, removed a.stays (context_dir w b) t'))
unfolding finished Settled
finished_lem w a b t t' dockerfile (err e) good = (
  _,
  refl,
  failing e (removed a.stays (context_dir w b) t')
      (remove_all-IsGone a.stays (context_dir w b) t'.files),
)
finished_lem w a b t t' dockerfile (ok rate) good =
    let (c, (ref, ran)) = good rate refl in
    (
      _,
      refl,
      built rate dockerfile ref (removed a.stays (context_dir w b) t')
          (remove_all-IsGone a.stays (context_dir w b) t'.files) c ran,
    )

run_placed_lem :
    (w : Worker) (a : Attempt) (b : Build) (t t' : Tree) (placed : Result Fault Bytes)
    → 16 ≤ length b.fingerprint
    → Settled w a b t (
        run_placed w a b (context_dir w b) placed >>= λ r.
        some (r, removed a.stays (context_dir w b) t'))
unfolding run_placed Settled finished
run_placed_lem w a b t t' (err e) h = (
  _,
  refl,
  failing e (removed a.stays (context_dir w b) t')
      (remove_all-IsGone a.stays (context_dir w b) t'.files),
)
run_placed_lem w a b t t' (ok dockerfile) h =
    let (r, e, good) = execute_build_lem w a b (context_dir w b) dockerfile h in
    rw e (finished_lem w a b t t' dockerfile r good)

run_downloaded_lem :
    (w : Worker) (a : Attempt) (b : Build) (t : Tree) (d : Tree × Option Fault)
    → 16 ≤ length b.fingerprint
    → Settled w a b t (run_downloaded w a b d)
unfolding run_downloaded place_and_run Settled
run_downloaded_lem w a b t (t', some e) h = (
  _,
  refl,
  failing e (removed a.stays (context_dir w b) t')
      (remove_all-IsGone a.stays (context_dir w b) t'.files),
)
run_downloaded_lem w a b t (t', none) h =
    let p = place_dockerfile a.device b (context_dir w b) t' in run_placed_lem w a b t p.0 p.1 h

attempt_build_lem :
    (w : Worker) (a : Attempt) (b : Build) (t : Tree)
    → 16 ≤ length b.fingerprint
    → Settled w a b t (attempt_build w a b t)
unfolding attempt_build Settled
attempt_build_lem w a b t h =
    let logged = cut-some 12 b.fingerprint (omega (arith, h)) in
    elim (Bool-cases a.makes_folder) [
      | inr m ↦ (((w, some (failure b no_folder)), t), ground (arith, logged, m), unmade m)
      | inl m ↦
          let e : attempt_build w a b t
              ≡ run_downloaded w a b (download_context a (context_dir w b) t) =
            ground (arith, logged, m) in
          let (r, s, settles) =
            run_downloaded_lem w a b t (download_context a (context_dir w b) t) h in
          (r, e ∙ s, settles)
    ]

-- tryExecuteBuild does not panic if the fingerprint of the build has 16 bytes. With no build to execute
-- it sends no report and changes nothing. With a build it sends one report, that the build failed or that
-- it succeeded, the latter only after Build did. If the folder of the build could not be made, the disk is
-- as it was; otherwise no file of that folder is left but those that RemoveAll failed to remove.
pub try_execute_build_correct :
    (w : Worker) (a : Attempt) (t : Tree)
    → ((b : Build) → assigned a.next ≡ some b → 16 ≤ length b.fingerprint)
    → ((assigned a.next ≡ none) × (try_execute_build w a t ≡ some ((w, none), t)))
      ⊎ ((b : Build) × (r : (Worker × Option Report) × Tree) × (assigned a.next ≡ some b)
          × (try_execute_build w a t ≡ some r)
          × Settles w a b t r)
unfolding try_execute_build Settled
try_execute_build_correct w a t long = elim (Option-cases (assigned a.next)) [
  | inl e ↦ inl (e, rw (try_execute_build, e) refl)
  | inr (b, e) ↦
      let (r, s, h) = attempt_build_lem w a b t (long b e) in
      inr (b, r, e, rw (try_execute_build, e) s, h)
]
