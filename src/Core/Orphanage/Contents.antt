-- ===== src/Core/Orphanage/Contents.antt =====
-- core/orphanage.go: which orphans the buffer holds after AddOrphan.
use klef.Prelude.{
  suc, ◌≤◌, ◌≡◌, ◌⊎◌, inl, inr, false, none, some, List, arith, length, if◌then◌else◌, ◌==◌, nat_eq,
  Option-cases,
}
use klef.Prelude.Map.{lookup, has, lookup-insert, lookup-delete, length-insert}
use klef.Types.Hash.{Hash}
use klef.Types.Vertex.{Vertex}
use klef.Core.Orphanage.{Orphanage, find_victim, is_full, remove_orphan, register, add_orphan}

register-orphans :
    (v : Vertex) (missing : List Hash) (b : Orphanage) (h : Hash)
    → lookup h (register v missing b).orphans ≡ (if v.hash == h then some v else lookup h b.orphans)
unfolding register
register-orphans v missing b h = lookup-insert v.hash h v b.orphans

remove_orphan-orphans :
    (k : Hash) (b : Orphanage) (h : Hash)
    → lookup h (remove_orphan k b).orphans ≡ (if k == h then none else lookup h b.orphans)
unfolding remove_orphan
remove_orphan-orphans k b h = elim (Option-cases (lookup k b.orphans)) [
  | inl e ↦ rw (e, remove_orphan) (ground (arith, e))
  | inr (v, e) ↦ rw (e, remove_orphan) (lookup-delete k h b.orphans)
]

-- Nothing enters the buffer but the vertex itself.
pub add_orphan-source :
    (v : Vertex) (missing : List Hash) (b : Orphanage) (h : Hash) (u : Vertex)
    → lookup h (add_orphan v missing b).orphans ≡ some u
    → (u ≡ v) ⊎ (lookup h b.orphans ≡ some u)
unfolding add_orphan
add_orphan-source v missing b h u e =
    let victim = find_victim b v.hash (length missing) in
    ground (
      arith,
      register-orphans v missing b h,
      register-orphans v missing (remove_orphan victim b) h,
      remove_orphan-orphans victim b h,
    )

-- With room the vertex goes in, unless its hash is there, and nobody goes out.
pub add_orphan-room :
    (v : Vertex) (missing : List Hash) (b : Orphanage) (h : Hash)
    → is_full b ≡ false
    → lookup h (add_orphan v missing b).orphans ≡ (
        if has v.hash b.lost_parent_count
        then lookup h b.orphans
        else if v.hash == h
        then some v
        else lookup h b.orphans)
unfolding add_orphan
add_orphan-room v missing b h room = ground (arith, register-orphans v missing b h)

pub length-add_orphan-le :
    (v : Vertex) (missing : List Hash) (b : Orphanage)
    → is_full b ≡ false
    → length (add_orphan v missing b).lost_parent_count ≤ suc (length b.lost_parent_count)
unfolding add_orphan register
length-add_orphan-le v missing b room =
    ground (arith, length-insert v.hash (length missing) b.lost_parent_count)

pub add_orphan-capacity :
    (v : Vertex) (missing : List Hash) (b : Orphanage)
    → (add_orphan v missing b).capacity ≡ b.capacity
unfolding add_orphan register remove_orphan
add_orphan-capacity v missing b = ground arith
