-- ===== src/Core/Dag/Deliveries.antt =====
-- core/dag.go: a whole series of AddVertex calls from an empty ledger.
use klef.Prelude.{
  pos, ◌+◌, ◌≤ℤ◌, ◌≡◌, ◌↔◌, refl, sym, ◌⊎◌, inl, inr, Bool, true, false, List, [], ◌∷◌, arith,
  length, Member, nat_eq, Option-cases,
}
use klef.Prelude.Map.{lookup, has}
use klef.Types.Hash.{Hash, Bytes}
use klef.Types.Vertex.{Vertex}
use klef.Config.{Config}
use klef.Core.Slasher.{Slasher}
use klef.Core.Orphanage.{new_orphanage}
use klef.Core.Dag.{Dag, new_dag}
use klef.Core.Dag.Invariant.{known, DagInv}
use klef.Core.Dag.Collision.{Agrees, NoCollision, NoCollision-Agrees}
use klef.Core.Dag.Convergence.{
  Delivery, deliver, sent, Grounded, grounded, Progress, IsOrphan-misses,
}
use klef.Core.Dag.Progress.{add_vertex-Progress, deliver_keeps-DagInv, new_dag-DagInv}

bool_ext : (a b : Bool) → (a ≡ true → b ≡ true) → (b ≡ true → a ≡ true) → a ≡ b
bool_ext true b f g = sym (f refl)
bool_ext false true f g = g refl
bool_ext false false f g = refl

-- The vertices of a series, the latest first, in front of those delivered before.
abbrev pub after : List Vertex → List Delivery → List Vertex
after got [] = got
after got (x ∷ xs) = after (x.vertex ∷ got) xs

after-Member :
    (got : List Vertex) (xs : List Delivery) (u : Vertex)
    → Member u got ⊎ Member u (sent xs)
    → Member u (after got xs)
after-Member got [] u (inl m) = m
after-Member got [] u (inr m) = absurd m
after-Member got (x ∷ xs) u (inl m) = after-Member (x.vertex ∷ got) xs u (inl (inr m))
after-Member got (x ∷ xs) u (inr (inl e)) = after-Member (x.vertex ∷ got) xs u (inl (inl e))
after-Member got (x ∷ xs) u (inr (inr m)) = after-Member (x.vertex ∷ got) xs u (inr m)

deliver-Progress :
    (sha256 : Bytes → Hash) (vs got : List Vertex) (xs : List Delivery) (d : Dag)
    → Progress sha256 vs got d
    → ((u : Vertex) → Member u (sent xs) → Member u vs)
    → length got + length (sent xs) ≡ length vs
    → Progress sha256 vs (after got xs) (deliver sha256 xs d)
unfolding deliver
deliver-Progress sha256 vs got [] d g among size = g
deliver-Progress sha256 vs got (x ∷ xs) d g among size =
    deliver-Progress sha256 vs (x.vertex ∷ got) xs _
      (add_vertex-Progress sha256 vs got x.vertex x.round x.now d g (among x.vertex (inl refl))
        (omega (arith, size)))
      (λ u m. among u (inr m)) (omega (arith, size))

-- With all of `vs` delivered, each grounded hash is there.
complete :
    (sha256 : Bytes → Hash) (vs got : List Vertex) (d : Dag)
    → Progress sha256 vs got d
    → ((u : Vertex) → Member u vs → Member u got)
    → Agrees sha256 vs
    → (h : Hash) → Grounded sha256 vs h
    → known d h ≡ true
unfolding has
complete sha256 vs got d g all agrees h (grounded v e m s ps) = elim (g.kept v (all v m) s) [
  | inl there ↦ rw e at there
  | inr waits ↦ elim (Option-cases (lookup v.hash d.buffer.orphans)) [
    | inl gone ↦ absurd (ground (arith, waits, gone))
    | inr (w, found) ↦
        let (p, cited, missing) = IsOrphan-misses sha256 d v.hash w g.inv.base found in
        let same =
          agrees w v (g.from v.hash w found) m (g.inv.base.sound_orphans v.hash w found) s
            (g.inv.base.buffered.keyed v.hash w found) in
        absurd (
          ground
            (arith, missing, complete sha256 vs got d g all agrees p (ps p (rw same at cited))))
  ]
]

length-sent : (xs : List Delivery) → length (sent xs) ≡ length xs
length-sent [] = refl
length-sent (x ∷ xs) = omega (arith, length-sent xs)

start-Progress :
    (sha256 : Bytes → Hash) (slasher : Slasher) (cfg : Config) (vs : List Vertex)
    → pos (length vs) ≤ℤ cfg.dag.orphan_capacity
    → Progress sha256 vs [] (new_dag slasher cfg)
unfolding new_dag lookup new_orphanage has
start-Progress sha256 slasher cfg vs room = record {
  inv = new_dag-DagInv sha256 slasher cfg;
  only = λ h e. absurd (ground (arith, e));
  from = λ h u e. absurd (ground (arith, e));
  stored = λ h u e. absurd (ground (arith, e));
  kept = λ u m s. absurd m;
  few = omega arith;
  room = room;
}

-- The invariant at the end of a whole series.
pub delivered-Progress :
    (sha256 : Bytes → Hash) (slasher : Slasher) (cfg : Config) (xs : List Delivery)
    → pos (length xs) ≤ℤ cfg.dag.orphan_capacity
    → Progress sha256 (sent xs) (after [] xs) (deliver sha256 xs (new_dag slasher cfg))
delivered-Progress sha256 slasher cfg xs room =
    deliver-Progress sha256 (sent xs) [] xs (new_dag slasher cfg)
      (start-Progress sha256 slasher cfg (sent xs) (rw (length-sent xs) room)) (λ u m. m)
      (omega arith)

-- A ledger that starts empty and whose buffer has room for all deliveries ends with exactly the hashes
-- that the delivered vertices ground, in whatever order and however often they come, if SHA-256 does
-- not collide on their bytes, in which author, round and parents fit their widths.
pub known-deliver :
    (sha256 : Bytes → Hash) (slasher : Slasher) (cfg : Config) (xs : List Delivery)
    → pos (length xs) ≤ℤ cfg.dag.orphan_capacity
    → NoCollision sha256 (sent xs)
    → (h : Hash)
    → (known (deliver sha256 xs (new_dag slasher cfg)) h ≡ true) ↔ Grounded sha256 (sent xs) h
known-deliver sha256 slasher cfg xs room n h =
    let g = delivered-Progress sha256 slasher cfg xs room in
    (
      g.only h,
      complete sha256 (sent xs) _ _ g (λ u m. after-Member [] xs u (inr m))
          (NoCollision-Agrees sha256 (sent xs) n) h,
    )

pub Grounded-mono :
    (sha256 : Bytes → Hash) (vs ws : List Vertex)
    → ((u : Vertex) → Member u vs → Member u ws)
    → (h : Hash) → Grounded sha256 vs h
    → Grounded sha256 ws h
Grounded-mono sha256 vs ws f h (grounded v e m s ps) =
    grounded v e (f v m) s (λ p c. Grounded-mono sha256 vs ws f p (ps p c))

-- Two series of deliveries of the same vertices, in different orders and with different repetitions,
-- give ledgers with the same hashes, if the buffer has room for each series and SHA-256 does not
-- collide on the bytes of their vertices, in which author, round and parents fit their widths.
pub deliver-converges :
    (sha256 : Bytes → Hash) (slasher : Slasher) (cfg : Config) (xs ys : List Delivery)
    → pos (length xs) ≤ℤ cfg.dag.orphan_capacity
    → pos (length ys) ≤ℤ cfg.dag.orphan_capacity
    → NoCollision sha256 (sent xs)
    → NoCollision sha256 (sent ys)
    → ((u : Vertex) → Member u (sent xs) ↔ Member u (sent ys))
    → (h : Hash)
    → known (deliver sha256 xs (new_dag slasher cfg)) h
      ≡ known (deliver sha256 ys (new_dag slasher cfg)) h
deliver-converges sha256 slasher cfg xs ys room room' agrees agrees' same h =
    let left = known-deliver sha256 slasher cfg xs room agrees h in
    let right = known-deliver sha256 slasher cfg ys room' agrees' h in
    let to = Grounded-mono sha256 (sent xs) (sent ys) (λ u. (same u).0) h in
    let back = Grounded-mono sha256 (sent ys) (sent xs) (λ u. (same u).1) h in
    bool_ext _ _ (λ k. right.1 (to (left.0 k))) (λ k. left.1 (back (right.0 k)))

-- The ledger's invariant holds after any series of calls.
pub deliver-DagInv :
    (sha256 : Bytes → Hash) (slasher : Slasher) (cfg : Config) (xs : List Delivery)
    → DagInv sha256 (deliver sha256 xs (new_dag slasher cfg))
deliver-DagInv sha256 slasher cfg xs =
    deliver_keeps-DagInv sha256 xs _ (new_dag-DagInv sha256 slasher cfg)
