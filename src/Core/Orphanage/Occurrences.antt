-- ===== src/Core/Orphanage/Occurrences.antt =====
-- How often a child stands in the waiting lists of the orphan buffer (core/orphanage.go).
use klef.Prelude.{
  ℕ, ◌+◌, ◌-◌, ◌≤◌, ◌<◌, ◌≡◌, refl, inl, inr, none, List, [], ◌∷◌, ◌++◌, arith, contains, All,
  All-mono, if◌then◌else◌, ◌==◌, nat_eq, Bool-cases, ltb,
}
use native.Mathlib.Nat.{le_trans}
use klef.Prelude.Map.{lookup, insert, delete, Distinct, lookup-insert, lookup-delete}
use klef.Prelude.Sorting.{insert_sorted, IsDistinct}
use klef.Prelude.Sets.{not-contains_of_All-ne}
use klef.Types.Hash.{Hash, hash_less}
use klef.Types.Vertex.{Vertex}
use klef.Types.Parents.{sort_vertices}
use klef.Core.Orphanage.{waiting, drop_child}

abbrev pub Lost : Type 0
Lost = List (Hash × List Vertex)

-- How often a vertex with the hash stands in a list.
unfoldable pub occ : Hash → List Vertex → ℕ
occ c [] = 0
occ c (v ∷ vs) = (if v.hash == c then 1 else 0) + occ c vs

-- How many entries of all waiting lists are for the child.
unfoldable pub pending : Hash → Lost → ℕ
pending c [] = 0
pending c ((h, ws) ∷ lost) = occ c ws + pending c lost

-- How often a hash stands in a list.
unfoldable pub count : Hash → List Hash → ℕ
count h [] = 0
count h (x ∷ xs) = (if x == h then 1 else 0) + count h xs

pub occ-append : (c : Hash) (vs ws : List Vertex) → occ c (vs ++ ws) ≡ occ c vs + occ c ws
unfolding occ
occ-append c [] ws = omega arith
occ-append c (v ∷ vs) ws = omega (arith, occ-append c vs ws)

pub occ-drop_child :
    (c h : Hash) (ws : List Vertex)
    → occ c (drop_child h ws) ≡ (if h == c then occ c ws - 1 else occ c ws)
unfolding occ drop_child
occ-drop_child c h [] = ground arith
occ-drop_child c h (w ∷ ws) = ground (arith, occ-drop_child c h ws)

occ-insert_sorted :
    (c : Hash) (v : Vertex) (ws : List Vertex)
    → occ c (insert_sorted (λ a b. hash_less a.hash b.hash) v ws)
      ≡ (if v.hash == c then 1 else 0) + occ c ws
unfolding occ insert_sorted
occ-insert_sorted c v [] = refl
occ-insert_sorted c v (w ∷ ws) = ground (arith, occ-insert_sorted c v ws)

pub occ-sort_vertices : (c : Hash) (ws : List Vertex) → occ c (sort_vertices ws) ≡ occ c ws
unfolding occ sort_vertices
occ-sort_vertices c [] = refl
occ-sort_vertices c (w ∷ ws) =
    ground (arith, occ-insert_sorted c w (sort_vertices ws), occ-sort_vertices c ws)

pub pending-insert :
    (c h : Hash) (ws : List Vertex) (lost : Lost)
    → pending c (insert h ws lost) + occ c (waiting h lost) ≡ pending c lost + occ c ws
unfolding pending occ insert lookup
pending-insert c h ws [] = omega arith
pending-insert c h ws ((k, vs) ∷ lost) = ground (arith, pending-insert c h ws lost)

pending-delete_absent :
    (c h : Hash) (lost : Lost) → lookup h lost ≡ none → pending c (delete h lost) ≡ pending c lost
unfolding pending lookup delete
pending-delete_absent c h [] e = refl
pending-delete_absent c h ((k, vs) ∷ lost) e = ground (arith, pending-delete_absent c h lost)

pub pending-delete :
    (c h : Hash) (lost : Lost)
    → Distinct lost
    → pending c (delete h lost) + occ c (waiting h lost) ≡ pending c lost
unfolding pending occ lookup delete
pending-delete c h [] d = omega arith
pending-delete c h ((k, vs) ∷ lost) d = elim (Bool-cases (k == h)) [
  | inl e ↦ ground (arith, pending-delete_absent c h lost, d.0)
  | inr e ↦ ground (arith, pending-delete c h lost d.1)
]

occ-waiting_tail :
    (c p k : Hash) (vs : List Vertex) (lost : Lost)
    → lookup k lost ≡ none
    → occ c (waiting p lost) ≤ occ c (waiting p ((k, vs) ∷ lost))
unfolding lookup occ
occ-waiting_tail c p k vs lost e = ground arith

-- A child that no list holds has nothing pending.
pub pending_zero :
    (c : Hash) (lost : Lost)
    → Distinct lost
    → ((p : Hash) → occ c (waiting p lost) ≡ 0)
    → pending c lost ≡ 0
unfolding pending lookup
pending_zero c [] d h = refl
pending_zero c ((k, vs) ∷ lost) d h =
    let first : occ c vs ≡ 0 = ground (arith, h k) in
    let rest =
      pending_zero c lost d.1 (λ p. omega (arith, occ-waiting_tail c p k vs lost d.0, h p)) in
    omega arith

-- What is pending is pending in some list.
pub pending_pos :
    (c : Hash) (lost : Lost)
    → Distinct lost
    → 0 < pending c lost
    → (p : Hash) × (0 < occ c (waiting p lost))
unfolding pending lookup
pending_pos c [] d h = absurd (omega arith)
pending_pos c ((k, vs) ∷ lost) d h = elim (Bool-cases (ltb 0 (occ c vs))) [
  | inl e ↦ (k, ground arith)
  | inr e ↦
      let (p, q) = pending_pos c lost d.1 (ground arith) in
      (p, le_trans q (occ-waiting_tail c p k vs lost d.0))
]

pub waiting-insert :
    (c h p : Hash) (ws : List Vertex) (lost : Lost)
    → occ c (waiting p (insert h ws lost)) ≡ (if h == p then occ c ws else occ c (waiting p lost))
waiting-insert c h p ws lost = ground (arith, lookup-insert h p ws lost)

pub waiting-delete :
    (c h p : Hash) (lost : Lost)
    → occ c (waiting p (delete h lost)) ≡ (if h == p then 0 else occ c (waiting p lost))
unfolding occ
waiting-delete c h p lost = ground (arith, lookup-delete h p lost)

pub occ-le-pending : (c p : Hash) (lost : Lost) → occ c (waiting p lost) ≤ pending c lost
unfolding lookup occ pending
occ-le-pending c p [] = omega arith
occ-le-pending c p ((k, vs) ∷ lost) = ground (arith, occ-le-pending c p lost)

pub count-contains :
    (p : Hash) (hs : List Hash) → IsDistinct hs → count p hs ≡ (if contains p hs then 1 else 0)
unfolding count contains
count-contains p [] d = refl
count-contains p (h ∷ hs) d =
    ground (arith, count-contains p hs d.1, not-contains_of_All-ne h hs d.0)

-- Every vertex of a list occurs in it.
pub All-occ : (ws : List Vertex) → All (λ w. 0 < occ w.hash ws) ws
unfolding occ
All-occ [] = tt
All-occ (w ∷ ws) = (ground arith, All-mono _ _ ws (λ u p. omega arith) (All-occ ws))
