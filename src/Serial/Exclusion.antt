-- ===== src/Serial/Exclusion.antt =====
-- Only the owner moves bytes, and a claimed UART stays with its owner.
use zigbee_gateway.Common.{ℕ, ◌≡◌, refl, ◌≢◌, arith, Bool, false, ◌||◌, List, [], ◌∷◌}
use zigbee_gateway.Serial.Owner.{ZigbeeSerialOwner, unowned, local}
use zigbee_gateway.Serial.Uart.{UartComponent}
use zigbee_gateway.Serial.Gate.{
  ZigbeeSerialInterface, claim, release, read_byte, read_array, write_byte, write_array, flush,
  stream_read_array, stream_write_array, drain,
}

-- A call that may move bytes.
pub data Transfer : Type 0 where
  take_byte : Transfer
  take_array : ℕ → Transfer
  put_byte : ℕ → Transfer
  put_array : List ℕ → Transfer
  push_out : Transfer
  stream_take : ZigbeeSerialOwner → ℕ → Transfer
  stream_put : ZigbeeSerialOwner → List ℕ → Transfer
  discard : ZigbeeSerialOwner → Transfer

abbrev pub transfer :
    {U : Type 0} → UartComponent U → ZigbeeSerialInterface U → Transfer → ZigbeeSerialInterface U
transfer ops s take_byte = (read_byte ops s).0
transfer ops s (take_array n) = (read_array ops s n).0
transfer ops s (put_byte b) = write_byte ops s b
transfer ops s (put_array out) = write_array ops s out
transfer ops s push_out = flush ops s
transfer ops s (stream_take owner n) = (stream_read_array ops s owner n).0
transfer ops s (stream_put owner out) = (stream_write_array ops s owner out).0
transfer ops s (discard owner) = drain ops s owner

-- The owner on whose behalf a call is made.
abbrev pub caller : Transfer → ZigbeeSerialOwner
caller (stream_take owner n) = owner
caller (stream_put owner out) = owner
caller (discard owner) = owner
caller _ = local

-- A call on behalf of anyone but the owner leaves the UART, and the ownership, untouched.
pub transfer-other :
    {U : Type 0} (ops : UartComponent U) (s : ZigbeeSerialInterface U) (t : Transfer)
    → caller t ≢ s.owner
    → transfer ops s t ≡ s
unfolding read_byte read_array write_byte write_array flush stream_read_array stream_write_array
    drain
transfer-other ops s take_byte h = ground arith
transfer-other ops s (take_array n) h = ground arith
transfer-other ops s (put_byte b) h = ground arith
transfer-other ops s (put_array out) h = ground arith
transfer-other ops s push_out h = ground arith
transfer-other ops s (stream_take owner n) h = ground arith
transfer-other ops s (stream_put owner out) h = ground arith
transfer-other ops s (discard owner) h = ground arith

-- The calls of the other parties that go through `claim` and `release`.
pub data OwnerCall : Type 0 where
  claims : ZigbeeSerialOwner → OwnerCall
  releases : ZigbeeSerialOwner → OwnerCall

-- The interface after the calls, and whether one of the claims was granted.
pub contend :
    {U : Type 0} → ZigbeeSerialInterface U → List OwnerCall → ZigbeeSerialInterface U × Bool
contend s [] = (s, false)
contend s (claims owner ∷ cs) =
    let (s', granted) = claim s owner in let (t, more) = contend s' cs in (t, granted || more)
contend s (releases owner ∷ cs) = contend (release s owner) cs

abbrev pub asker : OwnerCall → ZigbeeSerialOwner
asker (claims owner) = owner
asker (releases owner) = owner

abbrev pub AllOthers : ZigbeeSerialOwner → List OwnerCall → Type 0
AllOthers owner [] = Unit
AllOthers owner (c ∷ cs) = (asker c ≢ owner) × AllOthers owner cs

claim-other :
    {U : Type 0} (s : ZigbeeSerialInterface U) (owner : ZigbeeSerialOwner)
    → s.owner ≢ unowned
    → owner ≢ s.owner
    → claim s owner ≡ (s, false)
unfolding claim
claim-other s owner h k = ground arith

release-other :
    {U : Type 0} (s : ZigbeeSerialInterface U) (owner : ZigbeeSerialOwner)
    → owner ≢ s.owner
    → release s owner ≡ s
unfolding release
release-other s owner k = ground arith

-- While one party owns the UART, any claims and releases of the others are without effect, and no
-- claim of theirs is granted.
pub contend-others :
    {U : Type 0} (s : ZigbeeSerialInterface U) (cs : List OwnerCall)
    → s.owner ≢ unowned
    → AllOthers s.owner cs
    → contend s cs ≡ (s, false)
unfolding contend
contend-others s [] h others = refl
contend-others s (claims owner ∷ cs) h others =
    rw (claim-other s owner h others.0, contend-others s cs h others.1) refl
contend-others s (releases owner ∷ cs) h others =
    rw (release-other s owner others.0) (contend-others s cs h others.1)
