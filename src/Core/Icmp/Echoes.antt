-- ===== src/Core/Icmp/Echoes.antt =====
-- The echo header: what is recognised, and what rewriting the identifier keeps.
use leshiy.Prelude.{
  ℕ, ◌^◌, ◌<◌, ◌≡◌, Bool, true, false, some, List, [], ◌∷◌, length, get_or, drop, take, arith,
}
use leshiy.Prelude.Bytes.{from_be-to_be}
use leshiy.Core.Icmp.{Echo, parse_echo_request, is_echo_reply, set_id}

-- After `set_id` a request of either family is still one, with the new identifier and its sequence
-- number; the checksum is zero, and type, code, sequence number and data are as they were.
pub parse_echo_request-set_id :
    (msg : List ℕ) (v6 : Bool) (e : Echo) (id : ℕ)
    → id < 2 ^ 16
    → parse_echo_request msg v6 ≡ some e
    → ((set_id msg id).0 ≡ true)
      × (parse_echo_request (set_id msg id).1 v6 ≡ some (record e { id = id }))
      × (length (set_id msg id).1 ≡ length msg)
      × (get_or (set_id msg id).1 2 1 ≡ 0)
      × (get_or (set_id msg id).1 3 1 ≡ 0)
      × (take 2 (set_id msg id).1 ≡ take 2 msg)
      × (drop 6 (set_id msg id).1 ≡ drop 6 msg)
unfolding set_id parse_echo_request
parse_echo_request-set_id [] v6 e id h p = cc
parse_echo_request-set_id (a ∷ []) v6 e id h p = cc
parse_echo_request-set_id (a ∷ b ∷ []) v6 e id h p = cc
parse_echo_request-set_id (a ∷ b ∷ c ∷ []) v6 e id h p = cc
parse_echo_request-set_id (a ∷ b ∷ c ∷ d ∷ []) v6 e id h p = cc
parse_echo_request-set_id (a ∷ b ∷ c ∷ d ∷ f ∷ []) v6 e id h p = cc
parse_echo_request-set_id (a ∷ b ∷ c ∷ d ∷ f ∷ g ∷ []) v6 e id h p = cc
parse_echo_request-set_id (a ∷ b ∷ c ∷ d ∷ f ∷ g ∷ i ∷ []) v6 e id h p = cc
parse_echo_request-set_id (a ∷ b ∷ c ∷ d ∷ f ∷ g ∷ i ∷ j ∷ rest) v6 e id h p =
    ground (arith, from_be-to_be 2 id)

-- A request is not taken for a reply, in either family.
pub request_or_reply :
    (msg : List ℕ) (v6 : Bool) (e : Echo)
    → parse_echo_request msg v6 ≡ some e
    → is_echo_reply msg v6 ≡ false
unfolding parse_echo_request is_echo_reply
request_or_reply msg true e p = ground arith
request_or_reply msg false e p = ground arith
