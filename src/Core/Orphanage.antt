-- ===== src/Core/Orphanage.antt =====
-- core/orphanage.go: the buffer of vertices whose parents are missing. The mutex makes each method
-- one step; vertices are immutable, so a pointer to one is the value.
pub mod Victim
pub mod Capacity
pub mod Contents
pub mod Occurrences
pub mod Links
pub mod Invariant
pub mod Registration
pub mod Arrival
pub mod Release
use klef.Prelude.{
  ℕ, ℤ, pos, suc, ◌-◌, ◌≡◌, Bool, true, false, not, Option, none, some, List, [], ◌∷◌, ◌++◌, ltb,
  leb, leb_ℤ, length, if◌then◌else◌, or_zero, is_some, ◌==◌, nat_eq,
}
use klef.Prelude.Map.{lookup, insert, delete, has}
use klef.Types.Hash.{Hash, hash_less}
use klef.Types.Vertex.{Vertex}
use klef.Types.Parents.{sort_vertices}

-- Counts start as lengths and are stored only when positive, so a natural number serves; `count - 1`
-- at 0 is 0 instead of -1, and takes the same branch.
pub record Orphanage : Type 0 where
  pub lost_parents : List (Hash × List Vertex)
  pub lost_parent_count : List (Hash × ℕ)
  pub orphans : List (Hash × Vertex)
  pub capacity : ℤ

unfoldable pub new_orphanage : ℤ → Orphanage
new_orphanage limit = record {
  lost_parents = [];
  lost_parent_count = [];
  orphans = [];
  capacity = limit;
}

-- `b.lostParents[h]`, nil where the key is missing.
abbrev pub waiting : Hash → List (Hash × List Vertex) → List Vertex
waiting h lost = or_zero (lookup h lost) []

-- The loop of findVictim over the map, from a victim and its missing count.
unfoldable pub victim_loop : List (Hash × ℕ) → Hash → ℕ → Hash
victim_loop [] victim most = victim
victim_loop ((h, count) ∷ rest) victim most =
    let higher = ltb most count in
    let tie = count == most in
    victim_loop rest
      (if higher then h else if tie then if hash_less victim h then h else victim else victim)
      (if higher then count else most)

unfoldable pub find_victim : Orphanage → Hash → ℕ → Hash
unfolding victim_loop
find_victim b candidate missing = victim_loop b.lost_parent_count candidate missing

-- The first child with the hash leaves the list.
unfoldable pub drop_child : Hash → List Vertex → List Vertex
drop_child hash [] = []
drop_child hash (child ∷ rest) = if child.hash == hash then rest else child ∷ drop_child hash rest

is_empty : List Vertex → Bool
is_empty [] = true
is_empty (v ∷ vs) = false

-- One round of removeOrphan's loop over the parents of the vertex.
unfoldable pub unlink : Hash → Hash → List (Hash × List Vertex) → List (Hash × List Vertex)
unfolding drop_child is_empty
unlink hash p lost = elim (lookup p lost) [
  | none ↦ lost
  | some list ↦
      let list' = drop_child hash list in
      if is_empty list' then delete p lost else insert p list' lost
]

unfoldable pub unlink_all : Hash → List Hash → List (Hash × List Vertex) → List (Hash × List Vertex)
unfolding unlink
unlink_all hash [] lost = lost
unlink_all hash (p ∷ ps) lost = unlink_all hash ps (unlink hash p lost)

unfoldable pub remove_orphan : Hash → Orphanage → Orphanage
unfolding unlink_all
remove_orphan hash b = elim (lookup hash b.orphans) [
  | none ↦ b
  | some vtx ↦ record b {
    lost_parents = unlink_all hash vtx.parents b.lost_parents;
    lost_parent_count = delete hash b.lost_parent_count;
    orphans = delete hash b.orphans;
  }
]

-- The loop that appends the vertex to the list of each missing parent.
unfoldable pub link : Vertex → List Hash → List (Hash × List Vertex) → List (Hash × List Vertex)
link vtx [] lost = lost
link vtx (h ∷ hs) lost = link vtx hs (insert h (waiting h lost ++ vtx ∷ []) lost)

unfoldable pub register : Vertex → List Hash → Orphanage → Orphanage
unfolding link
register vtx missing b = record b {
  lost_parents = link vtx missing b.lost_parents;
  lost_parent_count = insert vtx.hash (length missing) b.lost_parent_count;
  orphans = insert vtx.hash vtx b.orphans;
}

unfoldable pub is_full : Orphanage → Bool
is_full b = leb_ℤ b.capacity (pos (length b.lost_parent_count))

unfoldable pub add_orphan : Vertex → List Hash → Orphanage → Orphanage
unfolding has is_full find_victim remove_orphan register
add_orphan vtx missing b =
    if has vtx.hash b.lost_parent_count
    then b
    else if is_full b
    then (let victim = find_victim b vtx.hash (length missing) in
        if victim == vtx.hash then b else register vtx missing (remove_orphan victim b))
    else register vtx missing b

-- One round of OnParentArrival's loop: the buffer, and the child if it became ready.
unfoldable pub settle : Vertex → Orphanage → Orphanage × List Vertex
settle child b = elim (lookup child.hash b.lost_parent_count) [
  | none ↦ (b, [])
  | some count ↦
      if leb (count - 1) 0
      then (
        record b {
          lost_parent_count = delete child.hash b.lost_parent_count;
          orphans = delete child.hash b.orphans;
        },
        child ∷ [],
      )
      else (record b { lost_parent_count = insert child.hash (count - 1) b.lost_parent_count }, [])
]

unfoldable pub settle_all : List Vertex → Orphanage → Orphanage × List Vertex
unfolding settle
settle_all [] b = (b, [])
settle_all (child ∷ rest) b =
    let (b', ready) = settle child b in
    let (b'', later) = settle_all rest b' in (b'', ready ++ later)

unfoldable pub on_parent_arrival : Hash → Orphanage → Orphanage × List Vertex
unfolding settle_all sort_vertices
on_parent_arrival p b = elim (lookup p b.lost_parents) [
  | none ↦ (b, [])
  | some children ↦
      let (b', ready) = settle_all (sort_vertices children) b in
      (record b' { lost_parents = delete p b'.lost_parents }, sort_vertices ready)
]

unfoldable pub get_orphan : Hash → Orphanage → Option Vertex
get_orphan hash b = lookup hash b.orphans

unfoldable pub orphanage_size : Orphanage → ℕ
orphanage_size b = length b.orphans
