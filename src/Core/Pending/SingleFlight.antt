-- ===== src/Core/Pending/SingleFlight.antt =====
-- core/pending_manager.go: how long Add refuses a hash, whatever other calls come.
use klef.Prelude.{
  ℤ, ◌≤ℤ◌, ◌<ℤ◌, ◌≡◌, ◌≢◌, refl, sym, subst, ◌∙◌, true, false, List, [], ◌∷◌, arith, leb_ℤ, ◌==◌,
  nat_eq, nat_beq_iff, inl, inr, Bool-cases, Option-cases, All,
}
use klef.Prelude.Map.{lookup}
use klef.Types.Hash.{Hash}
use klef.Core.Pending.{PendingManager, window_end, is_pending, add, watch, remove, cleanup}
use klef.Core.Pending.Cleanup.{Call, adds, watches, removes, cleans, call, call_all}
use klef.Core.Pending.Flight.{is_pending-add, is_pending-remove, is_pending-cleanup}

-- A call that comes before the end of the hash's window and does not remove the hash.
abbrev pub IsWithin : Hash → ℤ → Call → Type 0
IsWithin hash end (adds int63n h now) = h ≡ hash → now <ℤ end
IsWithin hash end (watches hashes) = Unit
IsWithin hash end (removes h) = h ≢ hash
IsWithin hash end (cleans now) = now <ℤ end

-- Pending at every time before the end.
abbrev IsOpen : Hash → ℤ → PendingManager → Type 0
IsOpen hash end pm = (t : ℤ) → t <ℤ end → is_pending hash t pm ≡ true

-- What is pending at a time was so before.
is_pending-earlier :
    (hash : Hash) (s t : ℤ) (pm : PendingManager)
    → s ≤ℤ t
    → is_pending hash t pm ≡ true
    → is_pending hash s pm ≡ true
unfolding is_pending
is_pending-earlier hash s t pm before e = elim (Option-cases (lookup hash pm.pending_requests)) [
  | inl missing ↦ absurd (ground (arith, e, missing))
  | inr (meta, found) ↦ ground (arith, e, found, before)
]

is_pending-watch :
    (hash : Hash) (t : ℤ) (hashes : List Hash) (pm : PendingManager)
    → is_pending hash t (watch hashes pm) ≡ is_pending hash t pm
unfolding is_pending watch
is_pending-watch hash t hashes pm = refl

module _ (hash : Hash) (end : ℤ) (pm : PendingManager) (open_still : IsOpen hash end pm) where
  add-IsOpen :
      (int63n : ℤ → ℤ) (h : Hash) (now : ℤ)
      → (h ≡ hash → now <ℤ end)
      → IsOpen hash end (add int63n h now pm).0
  add-IsOpen int63n h now within t before =
      let as_told = (is_pending-add int63n h now pm hash t).1 in
      elim (Bool-cases (h == hash)) [
        | inl same ↦
            let is_hash : h ≡ hash = (nat_beq_iff h hash).0 same in
            let busy : is_pending h now pm ≡ true =
              subst (λ x. is_pending x now pm ≡ true) (sym is_hash)
                (open_still now (within is_hash)) in
            ground (arith, busy, same, open_still t before, as_told)
        | inr other ↦ ground (arith, other, open_still t before, as_told)
      ]

  remove-IsOpen : (h : Hash) → h ≢ hash → IsOpen hash end (remove h pm)
  remove-IsOpen h apart t before =
      ground (arith, apart, open_still t before, nat_beq_iff h hash, is_pending-remove h pm hash t)

  cleanup-IsOpen : (now : ℤ) → now <ℤ end → IsOpen hash end (cleanup now pm)
  cleanup-IsOpen now within t before = elim (Bool-cases (leb_ℤ now t)) [
    | inl later ↦ is_pending-cleanup now pm hash t (ground (arith, later)) ∙ open_still t before
    | inr earlier ↦
        is_pending-earlier hash t now (cleanup now pm) (ground (arith, earlier))
          (is_pending-cleanup now pm hash now (omega arith) ∙ open_still now within)
  ]

call-IsOpen :
    (hash : Hash) (end : ℤ) (c : Call) (pm : PendingManager)
    → IsWithin hash end c
    → IsOpen hash end pm
    → IsOpen hash end (call c pm)
unfolding call
call-IsOpen hash end (adds int63n h now) pm within o = add-IsOpen hash end pm o int63n h now within
call-IsOpen hash end (watches hashes) pm within o =
    λ t before. is_pending-watch hash t hashes pm ∙ o t before
call-IsOpen hash end (removes h) pm within o = remove-IsOpen hash end pm o h within
call-IsOpen hash end (cleans now) pm within o = cleanup-IsOpen hash end pm o now within

call_all-IsOpen :
    (hash : Hash) (end : ℤ) (calls : List Call) (pm : PendingManager)
    → All (IsWithin hash end) calls
    → IsOpen hash end pm
    → IsOpen hash end (call_all calls pm)
unfolding call_all
call_all-IsOpen hash end [] pm within open_still = open_still
call_all-IsOpen hash end (c ∷ calls) pm within open_still =
    call_all-IsOpen hash end calls (call c pm) within.1
      (call-IsOpen hash end c pm within.0 open_still)

-- After an Add of a hash has succeeded, every later Add of the hash fails until its window ends,
-- whatever Adds, Watches, Removes of other hashes and clean-ups come in between, if the clean-ups and
-- the Adds of the hash among them come before the end of the window.
pub add_single_flight :
    (int63n again : ℤ → ℤ) (hash : Hash) (now later : ℤ) (pm : PendingManager) (calls : List Call)
    → (add int63n hash now pm).1 ≡ true
    → All (IsWithin hash (window_end int63n hash now pm)) calls
    → later <ℤ window_end int63n hash now pm
    → (add again hash later (call_all calls (add int63n hash now pm).0)).1 ≡ false
add_single_flight int63n again hash now later pm calls sent within inside =
    let after = (add int63n hash now pm).0 in
    let first = is_pending-add int63n hash now pm hash in
    let opened : IsOpen hash (window_end int63n hash now pm) after =
      λ t before. ground (arith, sent, before, (first t).0, (first t).1, nat_beq_iff hash hash) in
    let last = call_all-IsOpen hash (window_end int63n hash now pm) calls after within opened in
    ground (
      arith,
      last later inside,
      (is_pending-add again hash later (call_all calls after) hash later).0,
    )
