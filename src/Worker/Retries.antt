-- ===== src/Worker/Retries.antt =====
-- server/internal/worker/worker.go: the retries of completeBuild and sendLog.
use buildkit_multipartable.Base.{
  ℕ, zero, suc, ◌+◌, ◌-◌, ◌≤◌, ◌≡◌, refl, ◌∙◌, subst, Bool, true, false, List, [], ◌∷◌, Option,
  none, some, take, any, arith, Bool-cases, inl, inr, ◌==◌, if◌then◌else◌,
}
use buildkit_multipartable.Worker.{report, complete_build}

abbrev pub is_ok : Option ℕ → Bool
is_ok none = false
is_ok (some code) = code == 200

-- The loop of sendLog, as `report`, for whether the context is done before each request and its answer.
unfoldable pub send_loop : ℕ → List (Bool × Option ℕ) → ℕ → Bool × ℕ
send_loop zero answers sent = (false, sent)
send_loop (suc k) [] sent = send_loop k [] (sent + 1)
send_loop (suc k) (a ∷ later) sent =
    let rest = send_loop k later (sent + 1) in
    if a.0 then (false, sent) else if is_ok a.1 then (true, sent + 1) else rest

-- sendLog: whether the server took the line, and the number of requests
unfoldable pub send_log : List (Bool × Option ℕ) → Bool × ℕ
unfolding send_loop
send_log answers = send_loop 3 answers 0

-- sendLog stops after three requests at most.
pub send_log-le : (answers : List (Bool × Option ℕ)) → (send_log answers).1 ≤ 3
unfolding send_log
send_log-le answers = send_loop-le 3 answers 0
  where
    send_loop-le :
        (k : ℕ) (answers : List (Bool × Option ℕ)) (sent : ℕ)
        → (send_loop k answers sent).1 ≤ sent + k
    send_loop-le zero answers sent = omega arith
    send_loop-le (suc k) [] sent = omega (arith, send_loop-le k [] (sent + 1))
    send_loop-le (suc k) (a ∷ later) sent = ground (arith, send_loop-le k later (sent + 1))

report-taken :
    (k : ℕ) (answers : List (Option ℕ)) (sent : ℕ)
    → (report k answers sent).0 ≡ any is_ok (take k answers)
unfolding report
report-taken zero answers sent = refl
report-taken (suc k) [] sent = report-taken k [] (sent + 1) ∙ none_left k
  where
    none_left : (k : ℕ) → any is_ok (take k []) ≡ false
    none_left zero = refl
    none_left (suc k) = refl
report-taken (suc k) (none ∷ later) sent = report-taken k later (sent + 1)
report-taken (suc k) (some code ∷ later) sent = ground (arith, report-taken k later (sent + 1))

report-shift :
    (k : ℕ) (answers : List (Option ℕ)) (sent : ℕ)
    → (report k answers sent).1 ≡ sent + (report k answers 0).1
unfolding report
report-shift zero answers sent = omega arith
report-shift (suc k) [] sent = omega (arith, report-shift k [] (sent + 1), report-shift k [] 1)
report-shift (suc k) (none ∷ later) sent =
    omega (arith, report-shift k later (sent + 1), report-shift k later 1)
report-shift (suc k) (some code ∷ later) sent =
    ground (arith, report-shift k later (sent + 1), report-shift k later 1)

report-all :
    (k : ℕ) (answers : List (Option ℕ)) (sent : ℕ)
    → (report k answers sent).0 ≡ false
    → (report k answers sent).1 ≡ sent + k
unfolding report
report-all zero answers sent h = omega arith
report-all (suc k) [] sent h = omega (arith, report-all k [] (sent + 1) h)
report-all (suc k) (none ∷ later) sent h = omega (arith, report-all k later (sent + 1) h)
report-all (suc k) (some code ∷ later) sent h = ground (arith, h, report-all k later (sent + 1))

report-le : (k : ℕ) (answers : List (Option ℕ)) (sent : ℕ) → (report k answers sent).1 ≤ sent + k
unfolding report
report-le zero answers sent = omega arith
report-le (suc k) [] sent = omega (arith, report-le k [] (sent + 1))
report-le (suc k) (none ∷ later) sent = omega (arith, report-le k later (sent + 1))
report-le (suc k) (some code ∷ later) sent = ground (arith, report-le k later (sent + 1))

refused_longer :
    (n : ℕ) (x : Option ℕ) (later : List (Option ℕ))
    → is_ok x ≡ false
    → any is_ok (take (n - 1) later) ≡ false
    → any is_ok (take n (x ∷ later)) ≡ false
refused_longer zero x later h t = refl
refused_longer (suc n) x later h t =
    let e : suc n - 1 ≡ n = omega arith in rw h (subst (λ m. any is_ok (take m later) ≡ false) e t)

none_taken : (n : ℕ) → any is_ok (take n []) ≡ false
none_taken zero = refl
none_taken (suc n) = refl

-- The requests before the last one were refused.
report-refused :
    (k : ℕ) (answers : List (Option ℕ))
    → any is_ok (take ((report k answers 0).1 - 1) answers) ≡ false
unfolding report
report-refused zero answers = refl
report-refused (suc k) [] = none_taken _
report-refused (suc k) (none ∷ later) =
    let n = (report k later 0).1 in
    let e : 1 + n - 1 ≡ n = omega arith in
    rw (report-shift k later 1, e) (refused_longer n none later refl (report-refused k later))
report-refused (suc k) (some code ∷ later) = elim (Bool-cases (code == 200)) [
  | inl e ↦ rw e refl
  | inr e ↦
      let n = (report k later 0).1 in
      let f : 1 + n - 1 ≡ n = omega arith in
      rw (e, report-shift k later 1, f)
        (refused_longer n (some code) later e (report-refused k later))
]

-- completeBuild gets its report through exactly if the server answers one of the first three requests
-- with 200, and stops after this one; else it stops after the third.
pub complete_build_delivers :
    (answers : List (Option ℕ))
    → ((complete_build answers).0 ≡ any is_ok (take 3 answers))
      × ((complete_build answers).0 ≡ false → (complete_build answers).1 ≡ 3)
      × ((complete_build answers).1 ≤ 3)
      × (any is_ok (take ((complete_build answers).1 - 1) answers) ≡ false)
unfolding complete_build
complete_build_delivers answers = (
  report-taken 3 answers 0,
  λ h. omega (arith, report-all 3 answers 0 h),
  omega (arith, report-le 3 answers 0),
  report-refused 3 answers,
)
