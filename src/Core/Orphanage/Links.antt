-- ===== src/Core/Orphanage/Links.antt =====
-- What each update of the waiting lists of the orphan buffer (core/orphanage.go) does to how often a
-- child stands in them.
use klef.Prelude.{
  ◌+◌, ◌-◌, ◌≡◌, refl, ◌∙◌, inl, inr, true, false, ◌&&◌, List, [], ◌∷◌, ◌++◌, arith, length, All,
  All-append, if◌then◌else◌, ◌==◌, nat_eq, Option-cases,
}
use klef.Prelude.Map.{
  lookup, insert, Distinct, lookup-insert, lookup-delete, insert-Distinct, delete-Distinct,
}
use klef.Types.Hash.{Hash}
use klef.Types.Vertex.{Vertex}
use klef.Core.Orphanage.{waiting, drop_child, unlink, unlink_all, link, is_empty}
use klef.Core.Orphanage.Occurrences.{
  Lost, occ, pending, count, occ-append, occ-drop_child, pending-insert, pending-delete,
  waiting-insert, waiting-delete,
}

-- link

pub pending-link :
    (c : Hash) (v : Vertex) (hs : List Hash) (lost : Lost)
    → pending c (link v hs lost) ≡ pending c lost + (if v.hash == c then length hs else 0)
unfolding link occ
pending-link c v [] lost = ground arith
pending-link c v (h ∷ hs) lost =
    let ws = waiting h lost ++ v ∷ [] in
    ground (
      arith,
      pending-link c v hs (insert h ws lost),
      pending-insert c h ws lost,
      occ-append c (waiting h lost) (v ∷ []),
    )

pub waiting-link :
    (c p : Hash) (v : Vertex) (hs : List Hash) (lost : Lost)
    → occ c (waiting p (link v hs lost))
      ≡ occ c (waiting p lost) + (if v.hash == c then count p hs else 0)
unfolding link count occ
waiting-link c p v [] lost = ground arith
waiting-link c p v (h ∷ hs) lost =
    let ws = waiting h lost ++ v ∷ [] in
    ground (
      arith,
      waiting-link c p v hs (insert h ws lost),
      waiting-insert c h p ws lost,
      occ-append c (waiting h lost) (v ∷ []),
    )

pub link-Distinct :
    (v : Vertex) (hs : List Hash) (lost : Lost) → Distinct lost → Distinct (link v hs lost)
unfolding link
link-Distinct v [] lost d = d
link-Distinct v (h ∷ hs) lost d =
    link-Distinct v hs _ (insert-Distinct h (waiting h lost ++ v ∷ []) lost d)

-- unlink

occ-is_empty : (c : Hash) (ws : List Vertex) → is_empty ws ≡ true → occ c ws ≡ 0
unfolding is_empty occ
occ-is_empty c [] e = refl
occ-is_empty c (w ∷ ws) e = cc

pub waiting-unlink :
    (c h q p : Hash) (lost : Lost)
    → occ c (waiting p (unlink h q lost))
      ≡ (if (q == p) && (h == c) then occ c (waiting p lost) - 1 else occ c (waiting p lost))
unfolding unlink occ
waiting-unlink c h q p lost = elim (Option-cases (lookup q lost)) [
  | inl e ↦ rw (e, unlink) (ground arith)
  | inr (ws, e) ↦
      rw (e, unlink)
        (ground (
          arith,
          e,
          waiting-delete c q p lost,
          waiting-insert c q p (drop_child h ws) lost,
          occ-drop_child c h ws,
          occ-is_empty c (drop_child h ws),
        ))
]

pub unlink-Distinct : (h q : Hash) (lost : Lost) → Distinct lost → Distinct (unlink h q lost)
unfolding unlink
unlink-Distinct h q lost d = elim (Option-cases (lookup q lost)) [
  | inl e ↦ rw (e, unlink) d
  | inr (ws, e) ↦
      rw (e, unlink)
        (ground (arith, delete-Distinct q lost d, insert-Distinct q (drop_child h ws) lost d))
]

pub pending-unlink_ne :
    (c h q : Hash) (lost : Lost)
    → Distinct lost
    → (h == c) ≡ false
    → pending c (unlink h q lost) ≡ pending c lost
unfolding unlink
pending-unlink_ne c h q lost d ne = elim (Option-cases (lookup q lost)) [
  | inl e ↦ rw (e, unlink) refl
  | inr (ws, e) ↦
      rw (e, unlink)
        (ground (
          arith,
          e,
          pending-delete c q lost d,
          pending-insert c q (drop_child h ws) lost,
          occ-drop_child c h ws,
          occ-is_empty c (drop_child h ws),
        ))
]

pub unlink_all-Distinct :
    (h : Hash) (ps : List Hash) (lost : Lost) → Distinct lost → Distinct (unlink_all h ps lost)
unfolding unlink_all
unlink_all-Distinct h [] lost d = d
unlink_all-Distinct h (p ∷ ps) lost d = unlink_all-Distinct h ps _ (unlink-Distinct h p lost d)

pub pending-unlink_all_ne :
    (c h : Hash) (ps : List Hash) (lost : Lost)
    → Distinct lost
    → (h == c) ≡ false
    → pending c (unlink_all h ps lost) ≡ pending c lost
unfolding unlink_all
pending-unlink_all_ne c h [] lost d ne = refl
pending-unlink_all_ne c h (p ∷ ps) lost d ne =
    pending-unlink_all_ne c h ps _ (unlink-Distinct h p lost d) ne
    ∙ pending-unlink_ne c h p lost d ne

-- Each visit to a parent takes one entry of the child away.
pub waiting-unlink_all :
    (c h : Hash) (ps : List Hash) (p : Hash) (lost : Lost)
    → occ c (waiting p (unlink_all h ps lost))
      ≡ (if h == c then occ c (waiting p lost) - count p ps else occ c (waiting p lost))
unfolding unlink_all count
waiting-unlink_all c h [] p lost = ground arith
waiting-unlink_all c h (q ∷ ps) p lost =
    ground (arith, waiting-unlink_all c h ps p (unlink h q lost), waiting-unlink c h q p lost)

-- Every vertex in a waiting list.

module _ (P : Vertex → Type 0) where
  pub All-waiting-link :
      (v : Vertex) (hs : List Hash) (lost : Lost)
      → P v
      → ((p : Hash) → All P (waiting p lost))
      → (p : Hash) → All P (waiting p (link v hs lost))
  unfolding link
  All-waiting-link v [] lost pv h = h
  All-waiting-link v (q ∷ hs) lost pv h = All-waiting-link v hs _ pv (λ p. ground (
    arith,
    lookup-insert q p (waiting q lost ++ v ∷ []) lost,
    h p,
    All-append P (waiting q lost) (v ∷ []) (h q) (pv, tt),
  ))

  All-drop_child : (h : Hash) (ws : List Vertex) → All P ws → All P (drop_child h ws)
  unfolding drop_child
  All-drop_child h [] a = tt
  All-drop_child h (w ∷ ws) a = ground (arith, All-drop_child h ws a.1)

  All-waiting-unlink :
      (h q : Hash) (lost : Lost)
      → ((p : Hash) → All P (waiting p lost))
      → (p : Hash) → All P (waiting p (unlink h q lost))
  unfolding unlink
  All-waiting-unlink h q lost a p = elim (Option-cases (lookup q lost)) [
    | inl e ↦ rw (e, unlink) (a p)
    | inr (ws, e) ↦
        let old : All P ws = rw e at (a q) in
        rw (e, unlink)
          (ground (
            arith,
            a p,
            lookup-delete q p lost,
            lookup-insert q p (drop_child h ws) lost,
            All-drop_child h ws old,
          ))
  ]

  pub All-waiting-unlink_all :
      (h : Hash) (ps : List Hash) (lost : Lost)
      → ((p : Hash) → All P (waiting p lost))
      → (p : Hash) → All P (waiting p (unlink_all h ps lost))
  unfolding unlink_all
  All-waiting-unlink_all h [] lost a = a
  All-waiting-unlink_all h (q ∷ ps) lost a =
      All-waiting-unlink_all h ps _ (All-waiting-unlink h q lost a)

  -- Where a hash does not occur, every vertex has another.
  pub All-ne_of_occ :
      (h : Hash) (ws : List Vertex)
      → occ h ws ≡ 0
      → All P ws
      → All (λ w. P w × ((w.hash == h) ≡ false)) ws
  unfolding occ
  All-ne_of_occ h [] e a = tt
  All-ne_of_occ h (w ∷ ws) e a = ((a.0, ground arith), All-ne_of_occ h ws (ground arith) a.1)
