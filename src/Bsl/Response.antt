-- ===== src/Bsl/Response.antt =====
-- The command response of zigbee_bsl_frame.h: two bytes, 0x00 and then 0xCC or 0x33.
use mathlib.Core.Option.{Option, none, some}
use zigbee_gateway.Common.{
  ℕ, ◌≡◌, ◌↔◌, refl, arith, Bool, false, not, List, [], ◌∷◌, ◌==◌, if◌then◌else◌, length, get_or,
}

pub data ZigbeeBslCommandResponse : Type 0 where
  invalid ack nak : ZigbeeBslCommandResponse

pub record ZigbeeBslCommandResponseParser : Type 0 where
  pub zero_seen : Bool

abbrev pub new_parser : ZigbeeBslCommandResponseParser
new_parser = record { zero_seen = false }

unfoldable pub push :
    ZigbeeBslCommandResponseParser → ℕ → ZigbeeBslCommandResponseParser × ZigbeeBslCommandResponse
push p byte =
    let other : ZigbeeBslCommandResponseParser × ZigbeeBslCommandResponse =
      (record { zero_seen = byte == 0x00 }, invalid) in
    if p.zero_seen
    then (if byte == 0xCC
        then (record { zero_seen = false }, ack)
        else if byte == 0x33
        then (record { zero_seen = false }, nak)
        else other)
    else other

-- The bytes are those at the pointer, which is null if they are `none`.
unfoldable pub zigbee_bsl_parse_command_response : Option (List ℕ) → ℕ → ZigbeeBslCommandResponse
unfolding push
zigbee_bsl_parse_command_response none response_length = invalid
zigbee_bsl_parse_command_response (some response) response_length =
    if not (response_length == 2)
    then invalid
    else let p = (push new_parser (get_or response 0 0)).0 in (push p (get_or response 1 0)).1

-- The responses to a stream of bytes, in order, of those that are not `invalid`.
unfoldable pub responses : ZigbeeBslCommandResponseParser → List ℕ → List ZigbeeBslCommandResponse
unfolding push
responses p [] = []
responses p (b ∷ bs) = keep (push p b).1 (responses (push p b).0 bs)
  where
    keep : ZigbeeBslCommandResponse → List ZigbeeBslCommandResponse → List ZigbeeBslCommandResponse
    keep invalid rs = rs
    keep ack rs = ack ∷ rs
    keep nak rs = nak ∷ rs

-- A buffer is an acknowledgement exactly if it is the two bytes 0x00 0xCC, and a refusal exactly if
-- it is 0x00 0x33.
pub parse_command_response_iff :
    (response : List ℕ)
    → ((zigbee_bsl_parse_command_response (some response) (length response) ≡ ack)
        ↔ (response ≡ 0x00 ∷ 0xCC ∷ []))
      × ((zigbee_bsl_parse_command_response (some response) (length response) ≡ nak)
          ↔ (response ≡ 0x00 ∷ 0x33 ∷ []))
unfolding zigbee_bsl_parse_command_response
parse_command_response_iff [] = ground arith
parse_command_response_iff (a ∷ []) = ground arith
parse_command_response_iff (a ∷ b ∷ []) = ground arith
parse_command_response_iff (a ∷ b ∷ c ∷ rest) = ground arith

-- The independent description: the byte pairs 0x00 0xCC and 0x00 0x33 in a stream.
abbrev pub pairs : ℕ → List ℕ → List ZigbeeBslCommandResponse
pairs before [] = []
pairs before (b ∷ bs) =
    let rest = pairs b bs in
    if before == 0x00
    then (if b == 0xCC then ack ∷ rest else if b == 0x33 then nak ∷ rest else rest)
    else rest

responses-pairs_from :
    (before : ℕ) (bs : List ℕ)
    → responses (record { zero_seen = before == 0x00 }) bs ≡ pairs before bs
unfolding responses
responses-pairs_from before [] = refl
responses-pairs_from before (b ∷ bs) = ground (arith, responses-pairs_from b bs)

-- The parser finds, in any stream, exactly the acknowledgements and refusals that stand in it.
pub responses-pairs : (bs : List ℕ) → responses new_parser bs ≡ pairs 1 bs
responses-pairs bs = responses-pairs_from 1 bs
