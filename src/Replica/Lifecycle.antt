-- ===== src/Replica/Lifecycle.antt =====
-- replica/lifecycle.go: the loop that takes messages from the channel, one after the other.
pub mod Invariant
use klef.Prelude.{ℤ, List, [], ◌∷◌}
use klef.Types.Hash.{Hash, Bytes}
use klef.Types.Message.{Message}
use klef.Replica.{Replica, route_message}

-- What the select of runMessageLoop finds: a message with the time at which it is handled, the closed
-- channel, or the done context.
pub data Inbound : Type 0 where
  arrives : ℤ → Message → Inbound
  is_closed is_done : Inbound

unfoldable pub run_message_loop : (Bytes → Hash) → (Hash → ℤ → ℤ) → List Inbound → Replica → Replica
unfolding route_message
run_message_loop sha256 int63n [] r = r
run_message_loop sha256 int63n (arrives now msg ∷ rest) r =
    run_message_loop sha256 int63n rest (route_message sha256 int63n now msg r)
run_message_loop sha256 int63n (is_closed ∷ rest) r = r
run_message_loop sha256 int63n (is_done ∷ rest) r = r
