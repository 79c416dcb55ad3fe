-- ===== src/Replica/Peers.antt =====
-- replica/peers.go: sampling. The generator's Shuffle is the parameter `shuffle`; a slice with a
-- negative bound panics, which is `none`.
pub mod Sampling
use klef.Prelude.{
  ℕ, ℤ, pos, negsuc, Option, none, some, List, [], length, take, nat_beq, ltb_ℤ, leb_ℤ,
  if◌then◌else◌,
}
use klef.Replica.{Replica, get_active_peer_ids}

-- `peers[:n]`, for an n that is at most the length.
abbrev pub first_of : ℤ → List ℤ → Option (List ℤ)
first_of (pos n) peers = some (take n peers)
first_of (negsuc n) peers = none

module _ (shuffle : List ℤ → List ℤ) where
  unfoldable pub shuffle_and_pick : List ℤ → ℤ → Option (List ℤ)
  shuffle_and_pick peers n =
      let total = pos (length peers) in
      first_of (if ltb_ℤ total n then total else n) (shuffle peers)

  unfoldable pub get_random_peers : ℤ → Replica → Option (List ℤ)
  unfolding get_active_peer_ids shuffle_and_pick
  get_random_peers n r =
      let all_peers = get_active_peer_ids r in
      let total_active = length all_peers in
      if nat_beq total_active 0
      then some []
      else if leb_ℤ (pos total_active) n
      then some all_peers
      else shuffle_and_pick all_peers n
