-- ===== src/Tests/Messages.antt =====
-- Runs of the validators of messages.
use klef.Prelude.{pos, ◌≡◌, ◌↔◌, true, some, none, [], ◌∷◌, arith, ◌+ℤ◌, ◌==◌, nat_eq}
use klef.Types.Message.{Message, msg_fetch_req}
use klef.Core.Validation.{Context, validate_response}
use klef.Core.Validation.Accepted.{AcceptedResponse, IsRound, validate_response-eq-none_iff}
use klef.Tests.Data.{toy_hash, genesis, child, empty_message}

abbrev request : Message
request = record empty_message {
  kind = msg_fetch_req;
  fetch_req = some (record { missing_hashes = 32 ∷ 68 ∷ [] });
}

abbrev response : Message
response = record empty_message { fetch_res = some (record { vertices = child ∷ genesis ∷ [] }) }

abbrev context : Context
context = record {
  current_round = pos 60;
  is_known_vertex = λ h. h == 32;
  is_request_pending = λ h. true;
}

sixty-IsRound : IsRound (pos 60)
unfolding ◌+ℤ◌
sixty-IsRound = ((omega arith, omega arith), (omega arith, omega arith))

validate_response-eq-none_iff_example :
    (validate_response toy_hash (pos 50) context response ≡ none)
    ↔ AcceptedResponse toy_hash context sixty-IsRound (pos 50) response
validate_response-eq-none_iff_example =
    validate_response-eq-none_iff toy_hash context sixty-IsRound (pos 50) response
