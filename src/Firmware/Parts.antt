-- ===== src/Firmware/Parts.antt =====
-- What ESP-IDF and mbedtls give the manager: the staging partition and SHA-256. They are parameters,
-- with the laws that the manager relies on.
use mathlib.Core.Option.{Option, some}
use zigbee_gateway.Common.{ℕ, ◌≤◌, ◌≡◌, Bool, true, List, [], ◌++◌, length, take, drop}
use zigbee_gateway.Firmware.Types.{staging_header_size}

-- A read gives `none` on an error; the number of a write or an erase is its `esp_err_t`. The content
-- of the partition is of the type `P`.
pub record EspPartition (P : Type 0) : Type 0 where
  pub size : ℕ
  pub read : P → ℕ → ℕ → Option (List ℕ)
  pub write : P → ℕ → List ℕ → ℕ × P
  pub erase_range : P → ℕ → ℕ → ℕ × P

-- A read gives the bytes that the partition holds, and what is done to the header leaves the rest.
pub record IsFlash {P : Type 0} (flash : EspPartition P) (bytes : P → List ℕ) : Type 0 where
  pub read_bytes :
      (p : P) (offset n : ℕ) (out : List ℕ)
      → flash.read p offset n ≡ some out
      → (out ≡ take n (drop offset (bytes p))) × (length out ≡ n)
  pub write_header :
      (p : P) (out : List ℕ)
      → length out ≤ staging_header_size
      → drop staging_header_size (bytes (flash.write p 0 out).1)
        ≡ drop staging_header_size (bytes p)
  pub erase_header :
      (p : P)
      → drop staging_header_size (bytes (flash.erase_range p 0 staging_header_size).1)
        ≡ drop staging_header_size (bytes p)

-- The calls of mbedtls on a context of the type `C`; `true` is the result 0.
pub record Sha256 (C : Type 0) : Type 0 where
  pub init : C
  pub starts : C → Bool × C
  pub update : C → List ℕ → Bool × C
  pub finish : C → Bool × List ℕ

-- A context stands for the bytes that it was given since its start, and ends in their digest.
pub record IsSha {C : Type 0} (sha : Sha256 C) (given : C → List ℕ) (hash : List ℕ → List ℕ)
    : Type 0 where
  pub starts_given : (c : C) → (sha.starts c).0 ≡ true → given (sha.starts c).1 ≡ []
  pub update_given :
      (c : C) (bytes : List ℕ)
      → (sha.update c bytes).0 ≡ true
      → given (sha.update c bytes).1 ≡ given c ++ bytes
  pub finish_hash : (c : C) → (sha.finish c).0 ≡ true → (sha.finish c).1 ≡ hash (given c)
