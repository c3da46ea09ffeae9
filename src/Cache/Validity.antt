-- ===== src/Cache/Validity.antt =====
-- Every operation on a valid record leaves a valid record, and says what it changed.
use mathlib.Core.Option.{Option, none, some}
use zigbee_gateway.Common.{
  ℕ, zero, suc, min, ◌≡◌, refl, ap, arith, bit_and, Bool, true, not, ◌&&◌, List, [], ltb, ◌==◌,
  if◌then◌else◌, length, Bool-cases, inl, inr,
}
use zigbee_gateway.Common.Bits.{bit_at, bit_at-and, bit_ext}
use zigbee_gateway.Cache.Records.{
  not32, RunningImageCache, NetworkSnapshotCache, network_snapshot_on_network,
  network_snapshot_all_known, initialize_physical_identity_cache, initialize_running_image_cache,
  initialize_network_snapshot_cache,
}
use zigbee_gateway.Cache.Text.{
  zigbee_cache_text_is_terminated, copy_zigbee_cache_text, c_string, IsText, copy_text_lem,
}
use zigbee_gateway.Cache.Operations.{
  install, mark_network_connection_unknown, valid_physical_identity_cache,
  valid_running_image_cache, valid_network_snapshot_cache,
}

-- A record that was just initialised is valid, of each kind.
pub initialize-valid :
    (generation : ℕ)
    → (valid_physical_identity_cache (initialize_physical_identity_cache generation) ≡ true)
      × (valid_running_image_cache (initialize_running_image_cache generation) ≡ true)
      × (valid_network_snapshot_cache (initialize_network_snapshot_cache generation) ≡ true)
unfolding valid_physical_identity_cache valid_running_image_cache valid_network_snapshot_cache
    initialize_physical_identity_cache initialize_running_image_cache
    initialize_network_snapshot_cache zigbee_cache_text_is_terminated
initialize-valid generation = (refl, refl, refl)

zero_digit : (k : ℕ) → bit_at k 0 ≡ 0
zero_digit zero = refl
zero_digit (suc k) = zero_digit k

-- The mask against the connection bit, and against the other known bits.
mask-connection : (k : ℕ) → min (bit_at k (not32 4)) (bit_at k 4) ≡ 0
mask-connection zero = refl
mask-connection (suc zero) = refl
mask-connection (suc (suc zero)) = refl
mask-connection (suc (suc (suc k))) = omega (arith, zero_digit k)

mask-others : (k : ℕ) → min (bit_at k (not32 4)) (bit_at k 27) ≡ bit_at k 27
mask-others zero = refl
mask-others (suc zero) = refl
mask-others (suc (suc zero)) = refl
mask-others (suc (suc (suc zero))) = refl
mask-others (suc (suc (suc (suc zero)))) = refl
mask-others (suc (suc (suc (suc (suc k))))) = omega (arith, zero_digit k)

masked-connection : (known : ℕ) → bit_and (bit_and known (not32 4)) 4 ≡ 0
masked-connection known = bit_ext _ _ λ k. omega (
  arith,
  bit_at-and k (bit_and known (not32 4)) 4,
  bit_at-and k known (not32 4),
  mask-connection k,
  zero_digit k,
)

masked-others : (known : ℕ) → bit_and (bit_and known (not32 4)) 27 ≡ bit_and known 27
masked-others known = bit_ext _ _ λ k. omega (
  arith,
  bit_at-and k (bit_and known (not32 4)) 27,
  bit_at-and k known (not32 4),
  bit_at-and k known 27,
  mask-others k,
)

-- A mask taken off keeps clear what was clear.
and-clear :
    (known mask other : ℕ) → bit_and known other ≡ 0 → bit_and (bit_and known mask) other ≡ 0
and-clear known mask other h = bit_ext _ _ λ k. omega (
  arith,
  bit_at-and k (bit_and known mask) other,
  bit_at-and k known mask,
  bit_at-and k known other,
  ap (λ (x : ℕ). bit_at k x) h,
  zero_digit k,
)

abbrev pub network_of :
    Option NetworkSnapshotCache × Bool → NetworkSnapshotCache → NetworkSnapshotCache
network_of (none, done) c = c
network_of (some d, done) c = d

-- The loss of the connection leaves a valid record valid. The connection is then no longer known,
-- the other four bits of `known` are as they were, and so is every other field but `on_network`,
-- which is 0.
pub mark_unknown-valid :
    (c : NetworkSnapshotCache)
    → valid_network_snapshot_cache c ≡ true
    → let d = network_of (mark_network_connection_unknown (some c)) c in
      (valid_network_snapshot_cache d ≡ true)
      × (bit_and d.known 4 ≡ 0)
      × (bit_and d.known 27 ≡ bit_and c.known 27)
      × (d ≡ record c { known = d.known; on_network = 0 })
unfolding mark_network_connection_unknown valid_network_snapshot_cache
mark_unknown-valid c h = (
  ground (
    arith,
    and-clear c.known (not32 network_snapshot_on_network) (not32 network_snapshot_all_known),
  ),
  masked-connection c.known,
  masked-others c.known,
  refl,
)

abbrev pub fits : List ℕ → Bool
fits text = not (length text == 0) && ltb (length text) 16

-- An install leaves a valid record valid and awaiting observation. If both texts are of 1 to 15
-- bytes it succeeds, and firmware and role, which the record then holds, are all that is known;
-- otherwise it fails, and nothing is known.
pub install-valid :
    (c : RunningImageCache) (firmware role : List ℕ)
    → IsText firmware
    → IsText role
    → valid_running_image_cache c ≡ true
    → let (d, done) = install c (some firmware) (some role) in
      (valid_running_image_cache d ≡ true)
      × (done ≡ (fits firmware && fits role))
      × (d.awaiting_observation ≡ 1)
      × (d.known ≡ (if done then 9 else 0))
      × (c_string d.firmware ≡ (if done then firmware else []))
      × (c_string d.role ≡ (if done then role else []))
unfolding install valid_running_image_cache zigbee_cache_text_is_terminated
install-valid c firmware role text_f text_r h =
    let f = copy_text_lem 16 firmware (λ e. omega arith) text_f in
    let r = copy_text_lem 16 role (λ e. omega arith) text_r in
    elim (Bool-cases (copy_zigbee_cache_text 16 (some firmware)).1) [
      | inr bad ↦ rw bad (ground arith, ground (arith, f.2), refl, refl, refl, refl)
      | inl good ↦ elim (Bool-cases (copy_zigbee_cache_text 16 (some role)).1) [
        | inr bad ↦ rw (good, bad) (ground arith, ground (arith, f.2, r.2), refl, refl, refl, refl)
        | inl both ↦
            rw (good, both)
              (
                ground (arith, f.1, r.1),
                ground (arith, f.2, r.2),
                refl,
                refl,
                rw good at f.3,
                rw both at r.3,
              )
      ]
    ]
