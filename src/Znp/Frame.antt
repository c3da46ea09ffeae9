-- ===== src/Znp/Frame.antt =====
-- The ZNP frame, SOF | LEN | CMD0 | CMD1 | DATA | FCS: `znp_fcs` and the bytes that `znp_send` of
-- protocol.h writes, and `znp_frame_fcs_valid` of zigbee_znp_observer.h.
use zigbee_gateway.Common.{
  ℕ, zero, suc, ◌+◌, ◌%◌, ◌<◌, ◌≡◌, refl, ◌≢◌, ◌↔◌, ◌∙◌, ap, sym, arith, bit_xor, Bool, true, false,
  List, [], ◌∷◌, ◌++◌, ◌==◌, length, take, take-length, length-append, ne→==,
}
use Prim.Native.Nat.{differ}
use zigbee_gateway.Common.Bits.{
  bit_at, bit_at-lt, bit_at-xor, bit_ext, xor_assoc, xor_comm, xor_cancel,
}

-- The loop of both functions, over the bytes up to `len`.
unfoldable pub xor_all : ℕ → List ℕ → ℕ
xor_all x [] = x
xor_all x (b ∷ bs) = xor_all (bit_xor x b) bs

unfoldable pub znp_fcs : ℕ → ℕ → ℕ → List ℕ → ℕ
unfolding xor_all
znp_fcs len cmd0 cmd1 bytes = xor_all (bit_xor (bit_xor len cmd0) cmd1) (take len bytes)

unfoldable pub znp_frame_fcs_valid : ℕ → ℕ → ℕ → List ℕ → ℕ → Bool
unfolding xor_all
znp_frame_fcs_valid count cmd0 cmd1 payload fcs =
    xor_all (bit_xor (bit_xor count cmd0) cmd1) (take count payload) == fcs

-- What `znp_send` writes, in the order of its calls.
unfoldable pub znp_send : ℕ → ℕ → List ℕ → ℕ → List ℕ
unfolding znp_fcs
znp_send cmd0 cmd1 bytes len =
    (0xFE ∷ len ∷ cmd0 ∷ cmd1 ∷ []) ++ (take len bytes ++ (znp_fcs len cmd0 cmd1 bytes ∷ []))

-- The exclusive or is linear: a change of the start value changes the result alike.
xor_all-start : (x y : ℕ) (bs : List ℕ) → xor_all (bit_xor x y) bs ≡ bit_xor x (xor_all y bs)
unfolding xor_all
xor_all-start x y [] = refl
xor_all-start x y (b ∷ bs) =
    ap (λ (s : ℕ). xor_all s bs) (xor_assoc x y b) ∙ xor_all-start x (bit_xor y b) bs

-- One damaged byte, `b` read as `c`, is always seen: the value changes.
pub xor_all-damage :
    (x b c : ℕ) (before after : List ℕ)
    → b ≢ c
    → xor_all x (before ++ b ∷ after) ≢ xor_all x (before ++ c ∷ after)
unfolding xor_all
xor_all-damage x b c (d ∷ before) after other same =
    xor_all-damage (bit_xor x d) b c before after other same
xor_all-damage x b c [] after other same = other (cancel (sym (start b) ∙ same ∙ start c))
  where
    start : (v : ℕ) → xor_all (bit_xor x v) after ≡ bit_xor v (xor_all x after)
    start v = ap (λ (s : ℕ). xor_all s after) (xor_comm x v) ∙ xor_all-start v x after

    cancel : bit_xor b (xor_all x after) ≡ bit_xor c (xor_all x after) → b ≡ c
    cancel e =
        sym (xor_cancel b (xor_all x after))
        ∙ ap (λ (s : ℕ). bit_xor s (xor_all x after)) e
        ∙ xor_cancel c (xor_all x after)

-- A frame in which one data byte is damaged fails the check against the sender's value.
pub fcs_valid-damage :
    (cmd0 cmd1 b c : ℕ) (before after : List ℕ)
    → b ≢ c
    → let sent = before ++ b ∷ after in
      let arrived = before ++ c ∷ after in
      znp_frame_fcs_valid (length sent) cmd0 cmd1 arrived (znp_fcs (length sent) cmd0 cmd1 sent)
      ≡ false
unfolding znp_frame_fcs_valid znp_fcs
fcs_valid-damage cmd0 cmd1 b c before after other =
    rw (take-length (before ++ b ∷ after), whole)
      (ne→== _ _ (λ e. xor_all-damage _ b c before after other (sym e)))
  where
    whole : take (length (before ++ b ∷ after)) (before ++ c ∷ after) ≡ before ++ c ∷ after
    whole =
        ap (λ (n : ℕ). take n (before ++ c ∷ after))
          (omega (arith, length-append before (b ∷ after), length-append before (c ∷ after)))
        ∙ take-length (before ++ c ∷ after)

-- How many of the bytes have the digit of weight 2 ^ k.
abbrev pub ones : ℕ → List ℕ → ℕ
ones k [] = 0
ones k (b ∷ bs) = bit_at k b + ones k bs

differ-parity : (x y : ℕ) → x < 2 → y < 2 → differ x y ≡ (x + y) % 2
differ-parity zero y h k = omega arith
differ-parity (suc zero) zero h k = refl
differ-parity (suc zero) (suc zero) h k = refl
differ-parity (suc zero) (suc (suc y)) h k = absurd (omega arith)
differ-parity (suc (suc x)) y h k = absurd (omega arith)

-- A digit of an exclusive or is the parity of that digit.
xor-parity : (k x y : ℕ) → bit_at k (bit_xor x y) ≡ (bit_at k x + bit_at k y) % 2
xor-parity k x y =
    bit_at-xor k x y ∙ differ-parity (bit_at k x) (bit_at k y) (bit_at-lt k x) (bit_at-lt k y)

xor_all-parity : (k x : ℕ) (bs : List ℕ) → bit_at k (xor_all x bs) ≡ (bit_at k x + ones k bs) % 2
unfolding xor_all
xor_all-parity k x [] = omega (arith, bit_at-lt k x)
xor_all-parity k x (b ∷ bs) = omega (arith, xor_all-parity k (bit_xor x b) bs, xor-parity k x b)

-- The bytes of a frame behind its start, with the data up to the count.
abbrev pub covered : ℕ → ℕ → ℕ → List ℕ → ℕ → List ℕ
covered count cmd0 cmd1 payload fcs = count ∷ cmd0 ∷ cmd1 ∷ fcs ∷ take count payload

-- The check of the receiver passes exactly if each binary digit is set in an even number of the
-- frame's bytes: the length, the two command bytes, the data up to the length, and the check byte.
pub fcs_valid_iff :
    (count cmd0 cmd1 : ℕ) (payload : List ℕ) (fcs : ℕ)
    → (znp_frame_fcs_valid count cmd0 cmd1 payload fcs ≡ true)
      ↔ ((k : ℕ) → ones k (covered count cmd0 cmd1 payload fcs) % 2 ≡ 0)
unfolding znp_frame_fcs_valid
fcs_valid_iff count cmd0 cmd1 payload fcs =
    let start = bit_xor (bit_xor count cmd0) cmd1 in
    let value = xor_all start (take count payload) in
    let digit : (k : ℕ)
        → bit_at k value
          ≡ (bit_at k count + bit_at k cmd0 + bit_at k cmd1 + ones k (take count payload)) % 2 =
      λ k. omega (
        arith,
        xor_all-parity k start (take count payload),
        xor-parity k (bit_xor count cmd0) cmd1,
        xor-parity k count cmd0,
      ) in
    (
      (λ passes k.
          let same : value ≡ fcs = ground arith in
          omega (arith, digit k, ap (bit_at k) same, bit_at-lt k fcs)),
      (λ even.
          let same : value ≡ fcs =
            bit_ext _ _ (λ k. omega (arith, digit k, even k, bit_at-lt k fcs, bit_at-lt k value)) in
          ground arith),
    )
