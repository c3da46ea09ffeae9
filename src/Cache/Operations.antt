-- ===== src/Cache/Operations.antt =====
-- The operations of zigbee_metadata_cache.h. A null pointer to the record is `none`; the record
-- that it names is returned as the call leaves it.
use mathlib.Core.Option.{Option, none, some}
use zigbee_gateway.Common.{
  ℕ, ◌+◌, bit_and, bit_or, Bool, true, false, not, ◌&&◌, ◌||◌, List, ltb, ◌==◌, if◌then◌else◌, u32,
  replicate,
}
use zigbee_gateway.Cache.Records.{
  zigbee_cache_schema, physical_identity_cache_magic, running_image_cache_magic,
  network_snapshot_cache_magic, physical_identity_all_known, running_image_firmware,
  running_image_role, running_image_all_known, network_snapshot_on_network,
  network_snapshot_all_known, not32, PhysicalIdentityCache, RunningImageCache, NetworkSnapshotCache,
  physical_identity_size, running_image_size, network_snapshot_size,
  initialize_network_snapshot_cache,
}
use zigbee_gateway.Cache.Text.{zigbee_cache_text_is_terminated, copy_zigbee_cache_text}

-- The install on a record, for the two texts.
unfoldable pub install :
    RunningImageCache → Option (List ℕ) → Option (List ℕ) → RunningImageCache × Bool
install cache firmware role =
    let (firmware_text, firmware_valid) = copy_zigbee_cache_text 16 firmware in
    let (role_text, role_valid) = copy_zigbee_cache_text 16 role in
    let cleared = record cache {
      known = 0;
      awaiting_observation = 1;
      mode_cfg = 0;
      bsl_cfg = 0;
      stack = replicate 16 0;
      active_ieee = replicate 24 0;
      firmware = firmware_text;
      role = role_text;
    } in
    if not firmware_valid || not role_valid
    then (record cleared { firmware = replicate 16 0; role = replicate 16 0 }, false)
    else (record cleared { known = bit_or running_image_firmware running_image_role }, true)

unfoldable pub record_local_firmware_install :
    Option RunningImageCache → Option (List ℕ) → Option (List ℕ) → Option RunningImageCache × Bool
unfolding install
record_local_firmware_install none firmware role = (none, false)
record_local_firmware_install (some cache) firmware role =
    let (c, ok) = install cache firmware role in (some c, ok)

unfoldable pub mark_network_connection_unknown :
    Option NetworkSnapshotCache → Option NetworkSnapshotCache × Bool
mark_network_connection_unknown none = (none, false)
mark_network_connection_unknown (some cache) = (
  some (record cache {
    known = bit_and cache.known (not32 network_snapshot_on_network);
    on_network = 0;
  }),
  true,
)

unfoldable pub clear_network_snapshot_for_recommissioning :
    Option NetworkSnapshotCache → Option NetworkSnapshotCache × Bool
clear_network_snapshot_for_recommissioning none = (none, false)
clear_network_snapshot_for_recommissioning (some cache) =
    (some (initialize_network_snapshot_cache (u32 (cache.generation + 1))), true)

unfoldable pub record_local_radio_erase :
    Option NetworkSnapshotCache → Option NetworkSnapshotCache × Bool
record_local_radio_erase none = (none, false)
record_local_radio_erase (some cache) =
    let fresh = initialize_network_snapshot_cache (u32 (cache.generation + 1)) in
    (some (record fresh { known = network_snapshot_on_network; on_network = 0 }), true)

unfoldable pub valid_physical_identity_cache : PhysicalIdentityCache → Bool
valid_physical_identity_cache cache =
    if not (cache.magic == physical_identity_cache_magic)
      || (not (cache.schema == zigbee_cache_schema)
          || (not (cache.size == physical_identity_size)
              || (ltb 2 cache.chip_family
                  || not (bit_and cache.known (not32 physical_identity_all_known) == 0))))
    then false
    else zigbee_cache_text_is_terminated cache.hardware
      && zigbee_cache_text_is_terminated cache.factory_ieee

unfoldable pub valid_running_image_cache : RunningImageCache → Bool
valid_running_image_cache cache =
    if not (cache.magic == running_image_cache_magic)
      || (not (cache.schema == zigbee_cache_schema)
          || (not (cache.size == running_image_size)
              || (ltb 1 cache.awaiting_observation
                  || not (bit_and cache.known (not32 running_image_all_known) == 0))))
    then false
    else zigbee_cache_text_is_terminated cache.firmware
      && (zigbee_cache_text_is_terminated cache.stack
          && (zigbee_cache_text_is_terminated cache.active_ieee
              && zigbee_cache_text_is_terminated cache.role))

unfoldable pub valid_network_snapshot_cache : NetworkSnapshotCache → Bool
valid_network_snapshot_cache cache =
    if not (cache.magic == network_snapshot_cache_magic)
      || (not (cache.schema == zigbee_cache_schema)
          || (not (cache.size == network_snapshot_size)
              || not (bit_and cache.known (not32 network_snapshot_all_known) == 0)))
    then false
    else if not (bit_and cache.known network_snapshot_on_network == 0) && ltb 1 cache.on_network
    then false
    else zigbee_cache_text_is_terminated cache.parent_ieee
      && zigbee_cache_text_is_terminated cache.extended_pan_id

-- The candidate is `none` for a null pointer, and is returned as the call leaves it.
unfoldable pub copy_running_image_for_local_refresh :
    RunningImageCache → Option RunningImageCache → Option RunningImageCache × Bool
unfolding valid_running_image_cache
copy_running_image_for_local_refresh current none = (none, false)
copy_running_image_for_local_refresh current (some candidate) =
    if not (valid_running_image_cache current)
    then (some candidate, false)
    else (some (record current { generation = u32 (current.generation + 1) }), true)
