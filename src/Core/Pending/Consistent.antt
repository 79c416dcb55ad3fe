-- ===== src/Core/Pending/Consistent.antt =====
-- core/pending_manager.go: the map of requests and the heap of their expiry times.
use klef.Prelude.{
  ℤ, ◌≡◌, ◌≢◌, sym, ap, ◌∙◌, inl, inr, true, false, List, [], ◌∷◌, arith, ltb_ℤ, nat_eq, int_eq,
  ◌==◌, int_beq_iff, nat_beq_iff, Bool-cases, some, subst, All,
}
use mathlib.Core.Logic.{∥∥₁_elim}
use mathlib.Core.List.{
  Mem, Mem-prop, mem-cons_self, mem-cons_of_mem, eq-or-mem_of_mem-cons, not-mem-nil,
}
use mathlib.Core.List.Perm
use mathlib.Core.Bool.{Bool-set}
use klef.Prelude.Map.{lookup, insert, delete, lookup-insert, lookup-delete}
use klef.Config.{Config}
use klef.Types.Hash.{Hash}
use klef.Core.Heap.{push, pop}
use klef.Core.Heap.Order.{IsStrictOrder, IsHeap}
use klef.Core.Heap.Queue.{IsHeap-empty, IsHeap-least, push-IsHeap, push-perm, pop-IsHeap, pop-perm}
use klef.Core.Pending.{
  PendingManager, PendingMeta, PendingItem, is_pending, add, watch, remove, is_stale,
  expires_before, new_pending_manager,
}

pub expires_before-IsStrictOrder : IsStrictOrder expires_before
expires_before-IsStrictOrder = record {
  asymmetric = λ a b h. ground (arith, h);
  not_less_trans = λ a b c h k. ground (arith, h, k);
}

-- The item of the queue that stands for a request of the map.
abbrev pub item_of : Hash → PendingMeta → PendingItem
item_of hash meta = record {
  hash = hash;
  request_time = meta.request_time;
  expiry_time = meta.expiry_time;
}

same_item : (h k : Hash) (m n : PendingMeta) → h ≡ k → m ≡ n → item_of h m ≡ item_of k n
same_item h k m n e f = ap (λ x. item_of x m) e ∙ ap (item_of k) f

All-mem :
    {A : Type 0} (P : A → Type 0)
    → ((a : A) → IsProp (P a))
    → (xs : List A) (a : A) → All P xs
    → Mem a xs
    → P a
All-mem P prop [] a h m = absurd (not-mem-nil m)
All-mem P prop (x ∷ xs) a h m =
    ∥∥₁_elim (eq-or-mem_of_mem-cons m) (prop a)
      (elim [ inl e ↦ subst P (sym e) h.0 | inr later ↦ All-mem P prop xs a h.1 later ])

-- The queue is a heap, and every request of the map has its item there.
pub record IsConsistent (pm : PendingManager) : Type 0 where
  pub is_heap : IsHeap expires_before pm.pending_queue
  pub queued :
      (h : Hash) (meta : PendingMeta)
      → lookup h pm.pending_requests ≡ some meta
      → Mem (item_of h meta) pm.pending_queue

pub new_pending_manager-IsConsistent : (cfg : Config) → IsConsistent (new_pending_manager cfg)
unfolding new_pending_manager lookup
new_pending_manager-IsConsistent cfg = record {
  is_heap = IsHeap-empty expires_before;
  queued = λ h meta e. absurd (ground (arith, e));
}

module _ (hash : Hash) (meta : PendingMeta) (pm : PendingManager) (c : IsConsistent pm) where
  abbrev requested : PendingManager
  requested = record pm {
    pending_requests = insert hash meta pm.pending_requests;
    pending_queue = push expires_before (item_of hash meta) pm.pending_queue;
  }

  requested-queued :
      (h : Hash) (m : PendingMeta)
      → lookup h requested.pending_requests ≡ some m
      → Mem (item_of h m) requested.pending_queue
  requested-queued h m e =
      let changed = lookup-insert hash h meta pm.pending_requests in
      let whole = push-perm expires_before (item_of hash meta) pm.pending_queue in
      let back : Mem (item_of h m) (item_of hash meta ∷ pm.pending_queue)
          → Mem (item_of h m) requested.pending_queue =
        (Perm.mem_iff whole).1 in
      elim (Bool-cases (hash == h)) [
        | inl same ↦
            let first : item_of hash meta ≡ item_of h m =
              same_item hash h meta m (ground (arith, same, nat_beq_iff hash h))
                (ground (arith, same, changed, e)) in
            back (subst (λ x. Mem x (item_of hash meta ∷ pm.pending_queue)) first mem-cons_self)
        | inr other ↦
            back (
              mem-cons_of_mem (item_of hash meta)
                (c.queued h m (ground (arith, e, changed, other))))
      ]

  requested-IsConsistent : IsConsistent requested
  requested-IsConsistent = record {
    is_heap =
        push-IsHeap expires_before expires_before-IsStrictOrder (item_of hash meta) pm.pending_queue
          c.is_heap;
    queued = requested-queued;
  }

pub add-IsConsistent :
    (int63n : ℤ → ℤ) (hash : Hash) (now : ℤ) (pm : PendingManager)
    → IsConsistent pm
    → IsConsistent (add int63n hash now pm).0
unfolding add
add-IsConsistent int63n hash now pm c = elim (Bool-cases (is_pending hash now pm)) [
  | inl busy ↦ rw busy c
  | inr free ↦ rw free (requested-IsConsistent hash _ pm c)
]

pub remove-IsConsistent :
    (hash : Hash) (pm : PendingManager) → IsConsistent pm → IsConsistent (remove hash pm)
unfolding remove
remove-IsConsistent hash pm c = record {
  is_heap = c.is_heap;
  queued = λ h m e. c.queued h m (ground (arith, e, lookup-delete hash h pm.pending_requests));
}

pub watch-IsConsistent :
    (hashes : List Hash) (pm : PendingManager) → IsConsistent pm → IsConsistent (watch hashes pm)
unfolding watch
watch-IsConsistent hashes pm c = record { is_heap = c.is_heap; queued = c.queued }

-- The request that an item stands for is not stale.
pub item_of-fresh :
    (h : Hash) (m : PendingMeta) (item : PendingItem) (pm : PendingManager)
    → lookup h pm.pending_requests ≡ some m
    → item_of h m ≡ item
    → is_stale item pm ≡ false
unfolding is_stale
item_of-fresh h m item pm e same =
    subst (λ x. is_stale x pm ≡ false) same
      (ground (
        arith,
        e,
        int_beq_iff m.request_time m.request_time,
        int_beq_iff m.expiry_time m.expiry_time,
      ))

module _ (item : PendingItem) (items : List PendingItem) (pm : PendingManager) (c : IsConsistent pm)
    (e : pm.pending_queue ≡ item ∷ items) where
  abbrev popped : List PendingItem
  popped = pop expires_before (item ∷ items)

  popped-IsHeap : IsHeap expires_before popped
  popped-IsHeap =
      pop-IsHeap expires_before expires_before-IsStrictOrder item items
        (subst (IsHeap expires_before) e c.is_heap)

  -- Every request but the one of the root keeps its item.
  popped-queued :
      (h : Hash) (m : PendingMeta)
      → lookup h pm.pending_requests ≡ some m
      → item_of h m ≢ item
      → Mem (item_of h m) popped
  popped-queued h m found other =
      let before = subst (Mem (item_of h m)) e (c.queued h m found) in
      ∥∥₁_elim (eq-or-mem_of_mem-cons before) Mem-prop (elim [
        | inl same ↦ absurd (other same)
        | inr there ↦ (Perm.mem_iff (pop-perm expires_before item items)).1 there
      ])

  pub stale-IsConsistent :
      is_stale item pm ≡ true → IsConsistent (record pm { pending_queue = popped })
  stale-IsConsistent stale = record {
    is_heap = popped-IsHeap;
    queued = λ h m found.
        popped-queued h m found
          (λ same. ground (arith, stale, item_of-fresh h m item pm found same));
  }

  pub expired-IsConsistent : IsConsistent (record pm {
    pending_queue = popped;
    pending_requests = delete item.hash pm.pending_requests;
  })
  expired-IsConsistent = record {
    is_heap = popped-IsHeap;
    queued = λ h m found.
        let gone = lookup-delete item.hash h pm.pending_requests in
        popped-queued h m (ground (arith, found, gone)) (λ same.
          let hash : h ≡ item.hash = ap (λ x. x.hash) same in
          ground (arith, found, gone, hash, nat_beq_iff item.hash h));
  }

  -- No request is over while the root's is not.
  pub least-fresh :
      (now : ℤ)
      → ltb_ℤ now item.expiry_time ≡ true
      → (h : Hash) (m : PendingMeta) → lookup h pm.pending_requests ≡ some m
      → ltb_ℤ now m.expiry_time ≡ true
  least-fresh now open_still h m found =
      let before = subst (Mem (item_of h m)) e (c.queued h m found) in
      let least =
        IsHeap-least expires_before expires_before-IsStrictOrder item items
          (subst (IsHeap expires_before) e c.is_heap) in
      ∥∥₁_elim (eq-or-mem_of_mem-cons before) (Bool-set _ _) (elim [
        | inl same ↦ ap (λ x. ltb_ℤ now x.expiry_time) same ∙ open_still
        | inr there ↦
            let later =
              All-mem (λ y. expires_before y item ≡ false) (λ y. Bool-set _ _) items (item_of h m)
                least there in
            ground (arith, later, open_still)
      ])
