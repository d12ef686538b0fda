-- ===== src/Scheduler/Shape.antt =====
-- The scheduler's invariant, and the calls that could break it.
use buildkit_multipartable.Base.{
  ◌≡◌, refl, ap, ◌∙◌, Bool, true, false, not, Option, none, some, List, [], ◌∷◌, arith, Bytes, eqb,
  eqb_iff, Bool-cases, Option-cases, inl, inr,
}
use buildkit_multipartable.Scheduler.{
  Scheduler, WorkerState, new, idle, busy, offline, fresh_worker, virtual_replicas, find_worker,
  put_worker, add_replicas, remove_worker_locked, register_worker, remove_worker, mark_worker_idle,
  mark_worker_busy, prune_stale_workers,
}
use buildkit_multipartable.Scheduler.Workers.{
  find_worker-id, find_worker-put_worker, find_worker-delete_worker,
}
use buildkit_multipartable.Scheduler.Ring.{
  IsOrdered, nodes, nodes-remove_worker_locked, nodes-add_replicas, remove_worker_locked-IsOrdered,
  add_replicas-IsOrdered,
}

-- the worker is known, and not offline
abbrev pub is_online : Option WorkerState → Bool
is_online none = false
is_online (some w) = not (eqb w.status offline)

abbrev pub is_idle : Option WorkerState → Bool
is_idle none = false
is_idle (some w) = eqb w.status idle

-- The ring is ordered by hash; a worker that is not known or offline has no node on it, and an idle
-- worker has all its virtual replicas.
pub record IsShaped (s : Scheduler) : Type 0 where
  pub ordered : IsOrdered s.ring
  pub owned : (id : Bytes) → is_online (find_worker id s.workers) ≡ false → nodes id s.ring ≡ 0
  pub served :
      (id : Bytes) → is_idle (find_worker id s.workers) ≡ true → nodes id s.ring ≡ virtual_replicas

statuses : (eqb busy idle ≡ false) × (eqb busy offline ≡ false) × (eqb idle offline ≡ false)
unfolding eqb
statuses = (refl, refl, refl)

idle_not_offline : (x : Bytes) → eqb x idle ≡ true → eqb x offline ≡ false
idle_not_offline x h = ground (arith, eqb_iff x idle, eqb_iff x offline, statuses)

pub new-IsShaped : IsShaped new
unfolding new nodes find_worker
new-IsShaped = record { ordered = tt; owned = λ id h. refl; served = λ id h. cc }

module _ (s : Scheduler) (v : IsShaped s) where
  -- A worker under a fresh state, with its nodes taken off the ring.
  cleared-IsShaped :
      (id status : Bytes) (cache_keys : List Bytes)
      → eqb status offline ≡ true
      → IsShaped (record {
        ring = remove_worker_locked id s.ring;
        workers = put_worker (fresh_worker id status cache_keys) s.workers;
      })
  cleared-IsShaped id status cache_keys off = record {
    ordered = remove_worker_locked-IsOrdered id s.ring v.ordered;
    owned = λ j h. ground (
      arith,
      nodes-remove_worker_locked j id s.ring,
      find_worker-put_worker j (fresh_worker id status cache_keys) s.workers,
      v.owned j,
    );
    served = λ j h. ground (
      arith,
      nodes-remove_worker_locked j id s.ring,
      find_worker-put_worker j (fresh_worker id status cache_keys) s.workers,
      v.served j,
      idle_not_offline status,
    );
  }

  -- A worker that is not offline under a fresh state, with fresh nodes.
  renewed-IsShaped :
      (id status : Bytes) (cache_keys : List Bytes)
      → eqb status offline ≡ false
      → IsShaped (record {
        ring = add_replicas id cache_keys (remove_worker_locked id s.ring);
        workers = put_worker (fresh_worker id status cache_keys) s.workers;
      })
  renewed-IsShaped id status cache_keys on = record {
    ordered = add_replicas-IsOrdered id cache_keys _;
    owned = λ j h. ground (
      arith,
      nodes-add_replicas j id cache_keys (remove_worker_locked id s.ring),
      nodes-remove_worker_locked j id s.ring,
      find_worker-put_worker j (fresh_worker id status cache_keys) s.workers,
      v.owned j,
    );
    served = λ j h. ground (
      arith,
      nodes-add_replicas j id cache_keys (remove_worker_locked id s.ring),
      nodes-remove_worker_locked j id s.ring,
      find_worker-put_worker j (fresh_worker id status cache_keys) s.workers,
      v.served j,
    );
  }

  pub register_worker-IsShaped :
      (id status : Bytes) (cache_keys : List Bytes)
      → IsShaped (register_worker id status cache_keys s)
  unfolding register_worker
  register_worker-IsShaped id status cache_keys = elim (Bool-cases (eqb status offline)) [
    | inl off ↦ rw off (cleared-IsShaped id status cache_keys off)
    | inr on ↦ rw on (renewed-IsShaped id status cache_keys on)
  ]

  pub mark_worker_idle-IsShaped :
      (id : Bytes) (cache_keys : List Bytes) → IsShaped (mark_worker_idle id cache_keys s)
  unfolding mark_worker_idle
  mark_worker_idle-IsShaped id cache_keys = renewed-IsShaped id idle cache_keys statuses.2

  pub remove_worker-IsShaped : (id : Bytes) → IsShaped (remove_worker id s)
  unfolding remove_worker
  remove_worker-IsShaped id = record {
    ordered = remove_worker_locked-IsOrdered id s.ring v.ordered;
    owned = λ j h. ground (
      arith,
      nodes-remove_worker_locked j id s.ring,
      find_worker-delete_worker j id s.workers,
      v.owned j,
    );
    served = λ j h. ground (
      arith,
      nodes-remove_worker_locked j id s.ring,
      find_worker-delete_worker j id s.workers,
      v.served j,
    );
  }

  -- A worker that turns busy, and anything else about it but its id.
  pub busy-IsShaped :
      (w w' : WorkerState)
      → find_worker w.id s.workers ≡ some w
      → w'.id ≡ w.id
      → w'.status ≡ busy
      → IsShaped (record s { workers = put_worker w' s.workers })
  busy-IsShaped w w' e same st = record {
    ordered = v.ordered;
    owned = λ j h.
        ground (arith, find_worker-put_worker j w' s.workers, eqb_iff w'.id j, v.owned j, statuses);
    served = λ j h. ground (arith, find_worker-put_worker j w' s.workers, v.served j, statuses);
  }

  pub mark_worker_busy-IsShaped : (id : Bytes) → IsShaped (mark_worker_busy id s)
  unfolding mark_worker_busy
  mark_worker_busy-IsShaped id = elim (Option-cases (find_worker id s.workers)) [
    | inl e ↦ rw (e, mark_worker_busy) v
    | inr (w, e) ↦
        rw (e, mark_worker_busy)
          (busy-IsShaped w (record w { status = busy })
            (ap (λ i. find_worker i s.workers) (find_worker-id id s.workers w e) ∙ e) refl refl)
  ]

pub prune_stale_workers-IsShaped :
    (ids : List Bytes) (s : Scheduler) → IsShaped s → IsShaped (prune_stale_workers ids s)
unfolding prune_stale_workers
prune_stale_workers-IsShaped [] s v = v
prune_stale_workers-IsShaped (id ∷ ids) s v =
    prune_stale_workers-IsShaped ids _ (unfold remove_worker in remove_worker-IsShaped s v id)
