-- ===== src/Core/Fetcher/Addressing.antt =====
-- core/fetcher.go: whom each step of dispatchByStep asks, and for what.
use klef.Prelude.{
  ℕ, ℤ, ◌≤◌, ◌≡◌, ◌≢◌, ◌↔◌, refl, sym, subst, ap, ◌∙◌, List, [], ◌∷◌, map, arith, inl, inr, true,
  false, not, nat_beq, length, Bool-cases, nat_eq, int_eq, ◌==◌, select, int_beq_iff, Member,
}
use klef.Types.Hash.{Hash}
use klef.Config.{Config}
use klef.Core.Fetcher.{
  Dispatch, send_to, broadcast, dispatch_fetch, get_filtered_neighbors, dispatch_by_step,
}

-- What a pass of a step sends when it wants some hashes and GetRandomPeers answers `peers`: nothing if
-- no hash is wanted; then the suspect is asked in step 1, each of the peers but the suspect and nobody
-- else in step 2, everyone in step 3, each time for exactly the hashes that are wanted; and the
-- verification that follows sends nothing.
pub data Asks (suspect_id : ℤ) (step : ℕ) (wanted : List Hash) (peers : List ℤ)
    (dispatches : List Dispatch) : Type 0 where
  nothing_left : wanted ≡ [] → dispatches ≡ [] → Asks suspect_id step wanted peers dispatches
  asks_suspect :
      step ≡ 1
      → dispatches ≡ send_to suspect_id wanted ∷ []
      → Asks suspect_id step wanted peers dispatches
  asks_neighbors :
      step ≡ 2
      → ((d : Dispatch)
          → Member d dispatches
            ↔ ((pid : ℤ) × Member pid peers × (pid ≢ suspect_id) × (d ≡ send_to pid wanted)))
      → Asks suspect_id step wanted peers dispatches
  asks_all :
      step ≡ 3 → dispatches ≡ broadcast wanted ∷ [] → Asks suspect_id step wanted peers dispatches
  verifies : step ≡ 4 → dispatches ≡ [] → Asks suspect_id step wanted peers dispatches

Member-map_send :
    (wanted : List Hash) (peers : List ℤ) (d : Dispatch)
    → Member d (map (λ pid. send_to pid wanted) peers)
      ↔ ((pid : ℤ) × Member pid peers × (d ≡ send_to pid wanted))
Member-map_send wanted [] d = (λ m. absurd m, λ (pid, m, _). absurd m)
Member-map_send wanted (p ∷ peers) d =
    let rest = Member-map_send wanted peers d in
    (
      λ m. elim m [
        | inl e ↦ (p, inl refl, sym e)
        | inr later ↦ let (pid, at, e) = rest.0 later in (pid, inr at, e)
      ],
      λ (pid, m, e). elim m [
        | inl same ↦ inl (ap (λ x. send_to x wanted) same ∙ sym e)
        | inr later ↦ inr (rest.1 (pid, later, e))
      ],
    )

Member-neighbors :
    (suspect_id : ℤ) (peers : List ℤ) (pid : ℤ)
    → Member pid (select (λ p. not (p == suspect_id)) peers)
      ↔ (Member pid peers × (pid ≢ suspect_id))
unfolding select
Member-neighbors suspect_id [] pid = (λ m. absurd m, λ m. absurd m.0)
Member-neighbors suspect_id (p ∷ peers) pid =
    let rest = Member-neighbors suspect_id peers pid in
    elim (Bool-cases (p == suspect_id)) [
      | inl same ↦
          let suspect : p ≡ suspect_id = (int_beq_iff p suspect_id).0 same in
          (
            λ m. let (at, apart) = rest.0 (rw same at m) in (inr at, apart),
            λ (m, apart). rw same (elim m [
              | inl e ↦ absurd (apart (sym e ∙ suspect))
              | inr later ↦ rest.1 (later, apart)
            ]),
          )
      | inr other ↦
          let apart : p ≢ suspect_id =
            λ e. absurd (ground (arith, other, (int_beq_iff p suspect_id).1 e)) in
          (
            λ m. elim (rw other at m) [
              | inl e ↦ (inl e, λ s. apart (e ∙ s))
              | inr later ↦ let (at, far) = rest.0 later in (inr at, far)
            ],
            λ (m, far). rw other (elim m [ inl e ↦ inl e | inr later ↦ inr (rest.1 (later, far)) ]),
          )
    ]

module _ (random_peers : ℤ → List ℤ) (cfg : Config) (suspect_id : ℤ) (wanted : List Hash)
    (some_wanted : nat_beq (length wanted) 0 ≡ false) where
  abbrev peers : List ℤ
  peers = random_peers cfg.sync.max_random_peers

  dispatch_fetch-map :
      (ids : List ℤ) → dispatch_fetch ids wanted ≡ map (λ pid. send_to pid wanted) ids
  unfolding dispatch_fetch
  dispatch_fetch-map ids = rw some_wanted refl

  neighbors-asked :
      (d : Dispatch)
      → Member d (
          dispatch_fetch
            (get_filtered_neighbors random_peers cfg.sync.max_random_peers suspect_id)
            wanted)
        ↔ ((pid : ℤ) × Member pid peers × (pid ≢ suspect_id) × (d ≡ send_to pid wanted))
  unfolding get_filtered_neighbors
  neighbors-asked d =
      let others = select (λ p. not (p == suspect_id)) peers in
      let sent = Member-map_send wanted others d in
      let same = dispatch_fetch-map others in
      (
        λ m.
            let (pid, at, e) = sent.0 (subst (Member d) same m) in
            let (there, apart) = (Member-neighbors suspect_id peers pid).0 at in
            (pid, there, apart, e),
        λ (pid, there, apart, e).
            subst (Member d) (sym same)
              (sent.1 (pid, (Member-neighbors suspect_id peers pid).1 (there, apart), e)),
      )

  -- A step that wants some hashes asks for them.
  pub dispatch_by_step-Asks :
      (k : ℕ)
      → 1 ≤ k
      → k ≤ 3
      → Asks suspect_id k wanted peers (dispatch_by_step random_peers cfg k suspect_id wanted)
  unfolding dispatch_by_step
  dispatch_by_step-Asks k low high = elim (Bool-cases (nat_beq k 1)) [
    | inl one ↦ asks_suspect (ground (arith, one)) (rw one (dispatch_fetch-map (suspect_id ∷ [])))
    | inr not_one ↦ elim (Bool-cases (nat_beq k 2)) [
      | inl two ↦ asks_neighbors (ground (arith, two)) (rw (not_one, two) neighbors-asked)
      | inr not_two ↦
          let three : nat_beq k 3 ≡ true = ground (arith, not_one, not_two, low, high) in
          asks_all (ground (arith, three)) (rw (not_one, not_two, three) refl)
    ]
  ]
