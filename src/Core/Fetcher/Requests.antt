-- ===== src/Core/Fetcher/Requests.antt =====
-- core/fetcher.go: which hashes a fetch asks for.
use klef.Prelude.{
  ℤ, ◌≡◌, refl, ap, Bool, false, not, ◌&&◌, List, [], ◌∷◌, arith, contains, ◌==◌, nat_eq,
  nat_beq_iff, if◌then◌else◌, ltb_ℤ,
}
use klef.Types.Hash.{Hash}
use klef.Core.Pending.{PendingManager, is_pending, add, window_end}
use klef.Core.Pending.Flight.{is_pending-add}
use klef.Core.Fetcher.{filter_new_requests}

-- One round: `k` is added unless it was pending, which leaves the others' state alone.
filter_step :
    (k h : Hash) (filtered hashes : List Hash) (added busy before later x : Bool)
    → added ≡ not busy
    → (k ≡ h → busy ≡ before)
    → later ≡ (if (if k == h then not busy else false) then x else before)
    → contains h filtered ≡ (contains h hashes && not later)
    → contains h (if added then k ∷ filtered else filtered)
      ≡ (contains h (k ∷ hashes) && not before)
unfolding contains
filter_step k h filtered hashes added busy before later x e same f rest =
    ground (arith, nat_beq_iff k h)

-- A fetch asks for exactly those of the missing hashes that were not in flight before.
pub contains-filter_new_requests :
    (int63n : Hash → ℤ → ℤ) (now : ℤ) (hashes : List Hash) (pm : PendingManager) (h : Hash)
    → contains h (filter_new_requests int63n now hashes pm).1
      ≡ (contains h hashes && not (is_pending h now pm))
unfolding filter_new_requests contains
contains-filter_new_requests int63n now [] pm h = refl
contains-filter_new_requests int63n now (k ∷ hashes) pm h =
    let pm' = (add (int63n k) k now pm).0 in
    let first = is_pending-add (int63n k) k now pm h now in
    filter_step k h (filter_new_requests int63n now hashes pm').1 hashes (add (int63n k) k now pm).1
      (is_pending k now pm) (is_pending h now pm) (is_pending h now pm')
      (ltb_ℤ now (window_end (int63n k) k now pm)) first.0 (ap (λ x. is_pending x now pm)) first.1
      (contains-filter_new_requests int63n now hashes pm' h)
