-- ===== src/Common/Bits.antt =====
-- `&`, `|` and `^` on words. A number is known by its binary digits, and each operation acts on
-- the digits one by one, so the laws follow from those on two digits.
use Prim.Native.Nat.{
  ℕ, zero, suc, ◌+◌, ◌*◌, ◌/◌, ◌%◌, ◌^◌, ◌≤◌, ◌<◌, min, max, bit_and, bit_or, bit_xor, digits,
  differ, bit_and-bitwise, bit_or-bitwise, bit_xor-bitwise,
}
use mathlib.Core.Path.{◌≡◌, refl, ap, ◌∙◌}
use native.Mathlib.Omega.{arith}
use native.Mathlib.Nat.{pow-suc}

-- The digit recursion needs no more fuel than its first number.
module _ (z : ℕ → ℕ) (g : ℕ → ℕ → ℕ) where
  fuel_irrelevant : (s t x y : ℕ) → x ≤ s → x ≤ t → digits z g s x y ≡ digits z g t x y
  fuel_irrelevant s t zero y hs ht = at_zero s t
    where
      at_zero : (s t : ℕ) → digits z g s 0 y ≡ digits z g t 0 y
      at_zero zero zero = refl
      at_zero zero (suc t) = refl
      at_zero (suc s) zero = refl
      at_zero (suc s) (suc t) = refl
  fuel_irrelevant zero t (suc x) y hs ht = absurd (omega arith)
  fuel_irrelevant (suc s) zero (suc x) y hs ht = absurd (omega arith)
  fuel_irrelevant (suc s) (suc t) (suc x) y hs ht =
      rw (fuel_irrelevant s t (suc x / 2) (y / 2) (omega arith) (omega arith))

pub and_step : (x y : ℕ) → bit_and x y ≡ bit_and (x / 2) (y / 2) * 2 + min (x % 2) (y % 2)
and_step zero y = simp bit_and-bitwise (omega arith)
and_step (suc x) y = simp bit_and-bitwise (
    omega (
      arith,
      fuel_irrelevant (λ b. 0) min x (suc x / 2) (suc x / 2) (y / 2) (omega arith) (omega arith),
    ))

pub or_step : (x y : ℕ) → bit_or x y ≡ bit_or (x / 2) (y / 2) * 2 + max (x % 2) (y % 2)
or_step zero y = simp bit_or-bitwise (omega arith)
or_step (suc x) y = simp bit_or-bitwise (
    omega (
      arith,
      fuel_irrelevant (λ b. b) max x (suc x / 2) (suc x / 2) (y / 2) (omega arith) (omega arith),
    ))

pub xor_step : (x y : ℕ) → bit_xor x y ≡ bit_xor (x / 2) (y / 2) * 2 + differ (x % 2) (y % 2)
xor_step zero y = simp bit_xor-bitwise (omega arith)
xor_step (suc x) y = simp bit_xor-bitwise (
    omega (
      arith,
      fuel_irrelevant (λ b. b) differ x (suc x / 2) (suc x / 2) (y / 2) (omega arith) (omega arith),
    ))

-- The digit of weight 2 ^ k.
abbrev pub bit_at : ℕ → ℕ → ℕ
bit_at zero x = x % 2
bit_at (suc k) x = bit_at k (x / 2)

pub bit_at-lt : (k x : ℕ) → bit_at k x < 2
bit_at-lt zero x = omega arith
bit_at-lt (suc k) x = bit_at-lt k (x / 2)

ext_below : (n x y : ℕ) → x ≤ n → y ≤ n → ((k : ℕ) → bit_at k x ≡ bit_at k y) → x ≡ y
ext_below zero x y hx hy same = omega arith
ext_below (suc n) x y hx hy same =
    omega
      (arith, same 0, ext_below n (x / 2) (y / 2) (omega arith) (omega arith) (λ k. same (suc k)))

-- Numbers with the same digits are equal.
pub bit_ext : (x y : ℕ) → ((k : ℕ) → bit_at k x ≡ bit_at k y) → x ≡ y
bit_ext x y same = ext_below (x + y) x y (omega arith) (omega arith) same

pub bit_at-and : (k x y : ℕ) → bit_at k (bit_and x y) ≡ min (bit_at k x) (bit_at k y)
bit_at-and zero x y = omega (arith, and_step x y)
bit_at-and (suc k) x y =
    let half : bit_and x y / 2 ≡ bit_and (x / 2) (y / 2) = omega (arith, and_step x y) in
    rw half (bit_at-and k (x / 2) (y / 2))

pub bit_at-or : (k x y : ℕ) → bit_at k (bit_or x y) ≡ max (bit_at k x) (bit_at k y)
bit_at-or zero x y = omega (arith, or_step x y)
bit_at-or (suc k) x y =
    let half : bit_or x y / 2 ≡ bit_or (x / 2) (y / 2) = omega (arith, or_step x y) in
    rw half (bit_at-or k (x / 2) (y / 2))

-- Two binary digits differ or not.
differ-lt : (x y : ℕ) → x < 2 → y < 2 → differ x y < 2
differ-lt zero y hx hy = hy
differ-lt (suc x) zero hx hy = hx
differ-lt (suc zero) (suc zero) hx hy = omega arith
differ-lt (suc (suc x)) (suc y) hx hy = absurd (omega arith)
differ-lt (suc zero) (suc (suc y)) hx hy = absurd (omega arith)

differ_comm : (x y : ℕ) → differ x y ≡ differ y x
differ_comm zero zero = refl
differ_comm zero (suc y) = refl
differ_comm (suc x) zero = refl
differ_comm (suc x) (suc y) = differ_comm x y

differ_self : (x : ℕ) → differ x x ≡ 0
differ_self zero = refl
differ_self (suc x) = differ_self x

differ_assoc : (x y z : ℕ) → x < 2 → y < 2 → z < 2 → differ (differ x y) z ≡ differ x (differ y z)
differ_assoc zero y z hx hy hz = refl
differ_assoc (suc zero) zero z hx hy hz = refl
differ_assoc (suc zero) (suc zero) zero hx hy hz = refl
differ_assoc (suc zero) (suc zero) (suc zero) hx hy hz = refl
differ_assoc (suc zero) (suc zero) (suc (suc z)) hx hy hz = absurd (omega arith)
differ_assoc (suc zero) (suc (suc y)) z hx hy hz = absurd (omega arith)
differ_assoc (suc (suc x)) y z hx hy hz = absurd (omega arith)

pub bit_at-xor : (k x y : ℕ) → bit_at k (bit_xor x y) ≡ differ (bit_at k x) (bit_at k y)
bit_at-xor zero x y =
    omega (arith, xor_step x y, differ-lt (x % 2) (y % 2) (omega arith) (omega arith))
bit_at-xor (suc k) x y =
    let half : bit_xor x y / 2 ≡ bit_xor (x / 2) (y / 2) =
      omega (arith, xor_step x y, differ-lt (x % 2) (y % 2) (omega arith) (omega arith)) in
    rw half (bit_at-xor k (x / 2) (y / 2))

pub xor_comm : (x y : ℕ) → bit_xor x y ≡ bit_xor y x
xor_comm x y =
    bit_ext _ _
      (λ k. rw (bit_at-xor k x y, bit_at-xor k y x) (differ_comm (bit_at k x) (bit_at k y)))

pub xor_assoc : (x y z : ℕ) → bit_xor (bit_xor x y) z ≡ bit_xor x (bit_xor y z)
xor_assoc x y z = bit_ext _ _ λ k.
    rw
      (
        bit_at-xor k (bit_xor x y) z,
        bit_at-xor k x y,
        bit_at-xor k x (bit_xor y z),
        bit_at-xor k y z,
      )
      (differ_assoc (bit_at k x) (bit_at k y) (bit_at k z) (bit_at-lt k x) (bit_at-lt k y)
        (bit_at-lt k z))

bit_at-zero : (k : ℕ) → bit_at k 0 ≡ 0
bit_at-zero zero = refl
bit_at-zero (suc k) = bit_at-zero k

pub xor_self : (x : ℕ) → bit_xor x x ≡ 0
xor_self x = bit_ext _ _ (λ k. rw (bit_at-xor k x x, bit_at-zero k) (differ_self (bit_at k x)))

pub zero-xor : (x : ℕ) → bit_xor 0 x ≡ x
zero-xor x = bit_xor-bitwise 0 x

pub xor-zero : (x : ℕ) → bit_xor x 0 ≡ x
xor-zero x = xor_comm x 0 ∙ zero-xor x

-- Twice the same mask gives the number back.
pub xor_cancel : (x y : ℕ) → bit_xor (bit_xor x y) y ≡ x
xor_cancel x y = rw (xor_assoc x y y, xor_self y) (xor-zero x)

pub xor-lt : (k x y : ℕ) → x < 2 ^ k → y < 2 ^ k → bit_xor x y < 2 ^ k
xor-lt zero x y hx hy =
    omega (arith, xor_step x y, zero-xor (y / 2), ap (λ (t : ℕ). bit_xor t y) at_zero, zero-xor y)
  where
    at_zero : x ≡ 0
    at_zero = omega arith
xor-lt (suc k) x y hx hy = omega (
  arith,
  xor_step x y,
  pow-suc 2 k,
  differ-lt (x % 2) (y % 2) (omega arith) (omega arith),
  xor-lt k (x / 2) (y / 2) (omega (arith, pow-suc 2 k)) (omega (arith, pow-suc 2 k)),
)

-- Xor with an even number, and of two fields that do not overlap.
pub xor_double : (x h : ℕ) → bit_xor x (2 * h) ≡ bit_xor (x / 2) h * 2 + x % 2
xor_double x h =
    let half : 2 * h / 2 ≡ h = omega arith in
    let even : 2 * h % 2 ≡ 0 = omega arith in
    xor_step x (2 * h) ∙ rw (half, even, differ_comm (x % 2) 0) refl

pub xor_sum : (k q r : ℕ) → r < 2 ^ k → bit_xor r (2 ^ k * q) ≡ r + 2 ^ k * q
xor_sum zero q r h = let none : r ≡ 0 = omega arith in rw none (zero-xor (1 * q) ∙ omega arith)
xor_sum (suc k) q r h =
    let scaled : 2 ^ suc k * q ≡ 2 * (2 ^ k * q) = rw (pow-suc 2 k) (grind arith) in
    rw scaled
      (omega (arith, xor_double r (2 ^ k * q), xor_sum k q (r / 2) (omega (arith, pow-suc 2 k))))

-- Or of two fields that do not overlap is their sum.
pub or_fields : (k q r : ℕ) → r < 2 ^ k → bit_or (q * 2 ^ k) r ≡ q * 2 ^ k + r
or_fields zero q r h =
    let e : r ≡ 0 = omega arith in rw e (or_comm (q * 1) 0 ∙ bit_or-bitwise 0 (q * 1) ∙ omega arith)
  where
    or_comm : (x y : ℕ) → bit_or x y ≡ bit_or y x
    or_comm x y = bit_ext _ _ (λ k. rw (bit_at-or k x y, bit_at-or k y x) (omega arith))
or_fields (suc k) q r h =
    let scaled : q * 2 ^ suc k ≡ q * 2 ^ k * 2 =
      omega (arith, ap (λ (t : ℕ). q * t) (pow-suc 2 k)) in
    omega (
      arith,
      scaled,
      pow-suc 2 k,
      or_step (q * 2 ^ suc k) r,
      ap (λ (t : ℕ). bit_or t (r / 2)) halved,
      or_fields k q (r / 2) (omega (arith, pow-suc 2 k)),
    )
  where
    halved : q * 2 ^ suc k / 2 ≡ q * 2 ^ k
    halved = omega (arith, ap (λ (t : ℕ). q * t) (pow-suc 2 k))

pub or_comm : (x y : ℕ) → bit_or x y ≡ bit_or y x
or_comm x y = bit_ext _ _ (λ k. rw (bit_at-or k x y, bit_at-or k y x) (omega arith))

-- The same with the high field given by its value.
pub or_sum : (k q x r : ℕ) → x ≡ q * 2 ^ k → r < 2 ^ k → bit_or x r ≡ x + r
or_sum k q x r e h = rw e (or_fields k q r h)

-- The masks of the source, from one digit up to a byte.
pub and-zero : (x : ℕ) → bit_and x 0 ≡ 0
and-zero x = bit_ext _ _ λ k. rw (bit_at-and k x 0, bit_at-zero k) (omega arith)

pub and_1 : (x : ℕ) → bit_and x 1 ≡ x % 2
and_1 x = omega (arith, and_step x 1, and-zero (x / 2))

pub and_3 : (x : ℕ) → bit_and x 3 ≡ x % 4
and_3 x = omega (arith, and_step x 3, and_1 (x / 2))

pub and_7 : (x : ℕ) → bit_and x 7 ≡ x % 8
and_7 x = omega (arith, and_step x 7, and_3 (x / 2))

pub and_15 : (x : ℕ) → bit_and x 15 ≡ x % 16
and_15 x = omega (arith, and_step x 15, and_7 (x / 2))

and_31 : (x : ℕ) → bit_and x 31 ≡ x % 32
and_31 x = omega (arith, and_step x 31, and_15 (x / 2))

and_63 : (x : ℕ) → bit_and x 63 ≡ x % 64
and_63 x = omega (arith, and_step x 63, and_31 (x / 2))

and_127 : (x : ℕ) → bit_and x 127 ≡ x % 128
and_127 x = omega (arith, and_step x 127, and_63 (x / 2))

pub and_255 : (x : ℕ) → bit_and x 255 ≡ x % 256
and_255 x = omega (arith, and_step x 255, and_127 (x / 2))
