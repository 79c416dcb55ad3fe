-- ===== src/Core/Dag/Collision.antt =====
-- core/dag.go: what the check of the hash says about vertices of one hash.
use klef.Prelude.{◌≡◌, sym, ◌∙◌, List, Member}
use klef.Types.Hash.{Hash, Bytes}
use klef.Types.Vertex.{Vertex}
use klef.Types.Encoding.{vertex_bytes, calculate_hash}
use klef.Types.Encoding.Injective.{HeadFits, vertex_bytes-head}
use klef.Core.Dag.Invariant.{IsSound}

-- Sent vertices of one hash that pass the checks have the same parents.
abbrev pub Agrees : (Bytes → Hash) → List Vertex → Type 0
Agrees sha256 vs =
    (v w : Vertex)
    → Member v vs
    → Member w vs
    → IsSound sha256 v
    → IsSound sha256 w
    → v.hash ≡ w.hash
    → v.parents ≡ w.parents

-- SHA-256 does not collide on the bytes of the vertices, whose author, round and parents fit the
-- widths with which they are written.
pub record NoCollision (sha256 : Bytes → Hash) (vs : List Vertex) : Type 0 where
  pub collision_free :
      (v w : Vertex)
      → Member v vs
      → Member w vs
      → calculate_hash sha256 v ≡ calculate_hash sha256 w
      → vertex_bytes v ≡ vertex_bytes w
  pub fits : (v : Vertex) → Member v vs → HeadFits v

pub NoCollision-Agrees :
    (sha256 : Bytes → Hash) (vs : List Vertex) → NoCollision sha256 vs → Agrees sha256 vs
NoCollision-Agrees sha256 vs n v w hv hw sv sw e =
    let bytes = n.collision_free v w hv hw (sym sv.hashed ∙ e ∙ sw.hashed) in
    (vertex_bytes-head v w (n.fits v hv) (n.fits w hw) bytes).2

-- It holds of fewer vertices too.
pub same_sent-NoCollision :
    (sha256 : Bytes → Hash) (vs ws : List Vertex)
    → ((u : Vertex) → Member u ws → Member u vs)
    → NoCollision sha256 vs
    → NoCollision sha256 ws
same_sent-NoCollision sha256 vs ws f n = record {
  collision_free = λ v w mv mw. n.collision_free v w (f v mv) (f w mw);
  fits = λ v m. n.fits v (f v m);
}
