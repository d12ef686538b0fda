-- ===== src/Scheduler/Steps.antt =====
-- The scheduler under any sequence of calls.
use buildkit_multipartable.Base.{
  ◌≡◌, Option, some, List, Bytes, inl, inr, ◌∙◌, sym, ap, subst, some_inj,
}
use buildkit_multipartable.Scheduler.{
  Scheduler, new, register_worker, remove_worker, mark_worker_idle, mark_worker_busy,
  prune_stale_workers, assign_build,
}
use buildkit_multipartable.Scheduler.Shape.{
  IsShaped, new-IsShaped, register_worker-IsShaped, remove_worker-IsShaped,
  mark_worker_idle-IsShaped, mark_worker_busy-IsShaped, prune_stale_workers-IsShaped,
}
use buildkit_multipartable.Scheduler.Assign.{assign_build_correct}

pub data Step (s : Scheduler) : Scheduler → Type 0 where
  registers :
      (id status : Bytes) (cache_keys : List Bytes)
      → Step s (register_worker id status cache_keys s)
  removes : (id : Bytes) → Step s (remove_worker id s)
  idles : (id : Bytes) (cache_keys : List Bytes) → Step s (mark_worker_idle id cache_keys s)
  busies : (id : Bytes) → Step s (mark_worker_busy id s)
  prunes : (ids : List Bytes) → Step s (prune_stale_workers ids s)
  assigns :
      (fingerprint : Bytes) {s' : Scheduler} (r : Option Bytes)
      → assign_build fingerprint s ≡ some (s', r)
      → Step s s'

pub data Reach (s : Scheduler) : Scheduler → Type 0 where
  here : Reach s s
  next : {t u : Scheduler} → Reach s t → Step t u → Reach s u

assigned-IsShaped :
    (fingerprint : Bytes) (s s' : Scheduler) (r : Option Bytes)
    → IsShaped s
    → assign_build fingerprint s ≡ some (s', r)
    → IsShaped s'
assigned-IsShaped fingerprint s s' r v e = elim (assign_build_correct fingerprint s v) [
  | inl (f, none_idle) ↦ subst IsShaped (ap (λ p. p.0) (some_inj (sym f ∙ e))) v
  | inr (t, id, f, a) ↦ subst IsShaped (ap (λ p. p.0) (some_inj (sym f ∙ e))) a.shaped
]

Step-IsShaped : {s t : Scheduler} → Step s t → IsShaped s → IsShaped t
Step-IsShaped {s} (registers id status cache_keys) v =
    register_worker-IsShaped s v id status cache_keys
Step-IsShaped {s} (removes id) v = remove_worker-IsShaped s v id
Step-IsShaped {s} (idles id cache_keys) v = mark_worker_idle-IsShaped s v id cache_keys
Step-IsShaped {s} (busies id) v = mark_worker_busy-IsShaped s v id
Step-IsShaped {s} (prunes ids) v = prune_stale_workers-IsShaped ids s v
Step-IsShaped {s} (assigns fingerprint {s' = s'} r e) v = assigned-IsShaped fingerprint s s' r v e

-- After any sequence of calls on a new scheduler the ring is ordered by hash, a worker that is not
-- registered or offline has no node on it, and an idle worker has all its virtual replicas.
pub Reach-new-IsShaped : {s : Scheduler} → Reach new s → IsShaped s
Reach-new-IsShaped here = new-IsShaped
Reach-new-IsShaped (next r s) = Step-IsShaped s (Reach-new-IsShaped r)
