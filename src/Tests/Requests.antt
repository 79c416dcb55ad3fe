-- ===== src/Tests/Requests.antt =====
-- The pending requests and their heap on small inputs.
use klef.Prelude.{ℕ, ℤ, pos, ◌≡◌, refl, false, List, [], ◌∷◌, is_some, All, nat_eq, subst}
use mathlib.Core.List.{Perm}
use klef.Prelude.Map.{lookup}
use klef.Config.{default_config}
use klef.Core.Heap.{push, pop}
use klef.Core.Heap.Order.{IsHeap}
use klef.Core.Heap.Queue.{IsHeap-empty, push-IsHeap, pop_lem}
use klef.Core.Pending.{PendingItem, is_pending, cleanup, new_pending_manager, expires_before}
use klef.Core.Pending.Consistent.{expires_before-IsStrictOrder}
use klef.Core.Pending.Cleanup.{Call, adds, removes, cleans, call_all, cleanup-exact}

abbrev no_jitter : ℤ → ℤ
no_jitter z = pos 0

abbrev some_calls : List Call
some_calls =
    adds no_jitter 32 (pos 10)
    ∷ adds no_jitter 68 (pos 20)
    ∷ removes 32
    ∷ cleans (pos 30)
    ∷ adds no_jitter 7 (pos 40)
    ∷ []

cleanup-exact_example :
    is_some (
      lookup 68
        (cleanup
          (pos 600000000)
          (call_all some_calls (new_pending_manager default_config))).pending_requests)
    ≡ is_pending 68 (pos 600000000) (call_all some_calls (new_pending_manager default_config))
cleanup-exact_example = cleanup-exact default_config some_calls (pos 600000000) 68

abbrev item_at : ℕ → PendingItem
item_at n = record { hash = n; request_time = pos 0; expiry_time = pos n }

abbrev three_items : List PendingItem
three_items = item_at 3 ∷ item_at 9 ∷ item_at 5 ∷ []

three_pushed :
    push expires_before
      (item_at 3)
      (push expires_before (item_at 5) (push expires_before (item_at 9) []))
    ≡ three_items
unfolding push
three_pushed = refl

three_items-IsHeap : IsHeap expires_before three_items
three_items-IsHeap =
    let more = push-IsHeap expires_before expires_before-IsStrictOrder in
    subst (IsHeap expires_before) three_pushed
      (more (item_at 3) _ (more (item_at 5) _ (more (item_at 9) [] (IsHeap-empty expires_before))))

pop_lem_example :
    IsHeap expires_before (pop expires_before three_items)
    × Perm (pop expires_before three_items) (item_at 9 ∷ item_at 5 ∷ [])
    × All (λ y. expires_before y (item_at 3) ≡ false) (item_at 9 ∷ item_at 5 ∷ [])
pop_lem_example =
    pop_lem expires_before expires_before-IsStrictOrder (item_at 3) (item_at 9 ∷ item_at 5 ∷ [])
      three_items-IsHeap
