-- ===== src/Scheduler/Ring.antt =====
-- The hash ring: order, and how many nodes a worker has.
use buildkit_multipartable.Base.{
  ℕ, zero, suc, ◌+◌, ◌≤◌, ◌<◌, ◌≡◌, refl, ◌∙◌, ap, Bool, true, not, some, List, [], ◌∷◌, ◌++◌,
  arith, Bytes, eqb, eqb_iff, if◌then◌else◌, select, length, get_elem?, length-select-perm,
  select-append, length-append, Bool-cases, inl, inr,
}
use buildkit_multipartable.Base.Sort.{IsOrder, AllFrom, IsSorted, sort-perm, sort-IsSorted}
use buildkit_multipartable.Scheduler.{
  RingNode, hash_le, at_or_after, replica, replicas, add_replicas, remove_worker_locked,
  virtual_replicas,
}
use buildkit_multipartable.Scheduler.Search.{IsMonotone}

pub hash_le-IsOrder : IsOrder hash_le
hash_le-IsOrder = record { total = λ a b h. ground arith; trans = λ a b c h k. ground arith }

abbrev pub IsOrdered : List RingNode → Type 0
IsOrdered = IsSorted hash_le

-- how many nodes of the ring belong to the worker
abbrev pub owned_by : Bytes → RingNode → Bool
owned_by id n = eqb n.worker_id id

unfoldable pub nodes : Bytes → List RingNode → ℕ
nodes id ring = length (select (owned_by id) ring)

AllFrom-at :
    (target : ℕ) (n : RingNode) (ring : List RingNode) (b : ℕ)
    → AllFrom hash_le n ring
    → target ≤ n.hash
    → b < length ring
    → at_or_after target ring b ≡ true
unfolding at_or_after
AllFrom-at target n [] b a h p = absurd (omega arith)
AllFrom-at target n (x ∷ xs) zero a h p = ground arith
AllFrom-at target n (x ∷ xs) (suc b) a h p = AllFrom-at target n xs b a.1 h (omega arith)

pub at_or_after-IsMonotone :
    (target : ℕ) (ring : List RingNode)
    → IsOrdered ring
    → IsMonotone (at_or_after target ring) (length ring)
unfolding at_or_after
at_or_after-IsMonotone target [] s a b p q h = absurd (omega arith)
at_or_after-IsMonotone target (n ∷ ns) s zero zero p q h = h
at_or_after-IsMonotone target (n ∷ ns) s zero (suc b) p q h =
    unfold at_or_after in AllFrom-at target n ns b s.0 (ground arith) (omega arith)
at_or_after-IsMonotone target (n ∷ ns) s (suc a) zero p q h = absurd (omega arith)
at_or_after-IsMonotone target (n ∷ ns) s (suc a) (suc b) p q h =
    at_or_after-IsMonotone target ns s.1 a b (omega arith) (omega arith) h

AllFrom-select :
    (p : RingNode → Bool) (n : RingNode) (ring : List RingNode)
    → AllFrom hash_le n ring
    → AllFrom hash_le n (select p ring)
AllFrom-select p n [] a = tt
AllFrom-select p n (x ∷ xs) a = ground (arith, AllFrom-select p n xs a.1)

select-IsOrdered :
    (p : RingNode → Bool) (ring : List RingNode) → IsOrdered ring → IsOrdered (select p ring)
select-IsOrdered p [] s = tt
select-IsOrdered p (x ∷ xs) s = ground (arith, select-IsOrdered p xs s.1, AllFrom-select p x xs s.0)

pub remove_worker_locked-IsOrdered :
    (id : Bytes) (ring : List RingNode) → IsOrdered ring → IsOrdered (remove_worker_locked id ring)
unfolding remove_worker_locked
remove_worker_locked-IsOrdered id ring s = select-IsOrdered (λ n. not (eqb n.worker_id id)) ring s

pub add_replicas-IsOrdered :
    (id : Bytes) (cache_keys : List Bytes) (ring : List RingNode)
    → IsOrdered (add_replicas id cache_keys ring)
unfolding add_replicas
add_replicas-IsOrdered id cache_keys ring = sort-IsSorted hash_le hash_le-IsOrder _

pub nodes-remove_worker_locked :
    (id j : Bytes) (ring : List RingNode)
    → nodes id (remove_worker_locked j ring) ≡ (if eqb j id then 0 else nodes id ring)
unfolding nodes remove_worker_locked
nodes-remove_worker_locked id j [] = ground arith
nodes-remove_worker_locked id j (n ∷ ns) = ground (
  arith,
  eqb_iff n.worker_id id,
  eqb_iff n.worker_id j,
  eqb_iff j id,
  nodes-remove_worker_locked id j ns,
)

nodes-replicas :
    (id j : Bytes) (cache_keys : List Bytes) (count i : ℕ)
    → nodes id (replicas j cache_keys count i) ≡ (if eqb j id then count else 0)
unfolding nodes replicas replica
nodes-replicas id j cache_keys zero i = ground arith
nodes-replicas id j cache_keys (suc count) i =
    ground (arith, nodes-replicas id j cache_keys count (i + 1))

pub nodes-add_replicas :
    (id j : Bytes) (cache_keys : List Bytes) (ring : List RingNode)
    → nodes id (add_replicas j cache_keys ring)
      ≡ nodes id ring + (if eqb j id then virtual_replicas else 0)
unfolding nodes add_replicas
nodes-add_replicas id j cache_keys ring =
    let added = replicas j cache_keys virtual_replicas 0 in
    length-select-perm (owned_by id) (sort-perm hash_le (ring ++ added))
    ∙ (ap length (select-append (owned_by id) ring added)
        ∙ (length-append (select (owned_by id) ring) (select (owned_by id) added)
            ∙ ap (λ k. length (select (owned_by id) ring) + k)
                (unfold nodes in nodes-replicas id j cache_keys virtual_replicas 0)))

-- A worker with nodes has one at some index.
pub node_of :
    (id : Bytes) (ring : List RingNode)
    → 0 < nodes id ring
    → (p : ℕ) × (n : RingNode) × (p < length ring)
      × (get_elem? ring p ≡ some n)
      × (n.worker_id ≡ id)
unfolding nodes
node_of id [] h = absurd (omega arith)
node_of id (n ∷ ns) h = elim (Bool-cases (eqb n.worker_id id)) [
  | inl hit ↦ (0, n, omega arith, refl, (eqb_iff _ _).0 hit)
  | inr miss ↦ let (p, m, q, e, f) = node_of id ns (ground arith) in (suc p, m, omega arith, e, f)
]
