-- ===== src/Cache/Records.antt =====
-- The three records of zigbee_metadata_cache.h and their constants. A `char` array is the list of
-- its bytes.
use zigbee_gateway.Common.{ℕ, ◌-◌, ◌^◌, bit_or, List, replicate}

abbrev pub zigbee_cache_schema : ℕ
zigbee_cache_schema = 2

abbrev pub physical_identity_cache_magic : ℕ
physical_identity_cache_magic = 0x5A475048

abbrev pub running_image_cache_magic : ℕ
running_image_cache_magic = 0x5A47494D

abbrev pub network_snapshot_cache_magic : ℕ
network_snapshot_cache_magic = 0x5A474E57

abbrev pub physical_identity_all_known : ℕ
physical_identity_all_known = bit_or (bit_or 1 2) 4

abbrev pub running_image_firmware : ℕ
running_image_firmware = 1

abbrev pub running_image_role : ℕ
running_image_role = 8

abbrev pub running_image_all_known : ℕ
running_image_all_known = bit_or (bit_or (bit_or (bit_or (bit_or 1 2) 4) 8) 16) 32

abbrev pub network_snapshot_on_network : ℕ
network_snapshot_on_network = 4

abbrev pub network_snapshot_all_known : ℕ
network_snapshot_all_known = bit_or (bit_or (bit_or (bit_or 1 2) 4) 8) 16

-- `~` on a `uint32_t`.
abbrev pub not32 : ℕ → ℕ
not32 w = 2 ^ 32 - 1 - w

pub record PhysicalIdentityCache : Type 0 where
  pub magic : ℕ
  pub schema : ℕ
  pub size : ℕ
  pub generation : ℕ
  pub known : ℕ
  pub chip_family : ℕ
  pub protocols : ℕ
  pub flash_pages : ℕ
  pub reserved8 : ℕ
  pub chip_id_16 : ℕ
  pub reserved16 : ℕ
  pub chip_id_be : ℕ
  pub wafer_id : ℕ
  pub pg_rev : ℕ
  pub flash_size_bytes : ℕ
  pub hardware : List ℕ
  pub factory_ieee : List ℕ

pub record RunningImageCache : Type 0 where
  pub magic : ℕ
  pub schema : ℕ
  pub size : ℕ
  pub generation : ℕ
  pub known : ℕ
  pub awaiting_observation : ℕ
  pub reserved : List ℕ
  pub mode_cfg : ℕ
  pub bsl_cfg : ℕ
  pub firmware : List ℕ
  pub stack : List ℕ
  pub active_ieee : List ℕ
  pub role : List ℕ

pub record NetworkSnapshotCache : Type 0 where
  pub magic : ℕ
  pub schema : ℕ
  pub size : ℕ
  pub generation : ℕ
  pub known : ℕ
  pub pan_id : ℕ
  pub channel : ℕ
  pub on_network : ℕ
  pub parent_ieee : List ℕ
  pub extended_pan_id : List ℕ

-- `sizeof` of the records: their fields leave no padding.
abbrev pub physical_identity_size : ℕ
physical_identity_size = 144

abbrev pub running_image_size : ℕ
running_image_size = 100

abbrev pub network_snapshot_size : ℕ
network_snapshot_size = 84

-- `memset` to zero, and then the header.
unfoldable pub initialize_physical_identity_cache : ℕ → PhysicalIdentityCache
initialize_physical_identity_cache generation = record {
  magic = physical_identity_cache_magic;
  schema = zigbee_cache_schema;
  size = physical_identity_size;
  generation = generation;
  known = 0;
  chip_family = 0;
  protocols = 0;
  flash_pages = 0;
  reserved8 = 0;
  chip_id_16 = 0;
  reserved16 = 0;
  chip_id_be = 0;
  wafer_id = 0;
  pg_rev = 0;
  flash_size_bytes = 0;
  hardware = replicate 80 0;
  factory_ieee = replicate 24 0;
}

unfoldable pub initialize_running_image_cache : ℕ → RunningImageCache
initialize_running_image_cache generation = record {
  magic = running_image_cache_magic;
  schema = zigbee_cache_schema;
  size = running_image_size;
  generation = generation;
  known = 0;
  awaiting_observation = 0;
  reserved = replicate 3 0;
  mode_cfg = 0;
  bsl_cfg = 0;
  firmware = replicate 16 0;
  stack = replicate 16 0;
  active_ieee = replicate 24 0;
  role = replicate 16 0;
}

unfoldable pub initialize_network_snapshot_cache : ℕ → NetworkSnapshotCache
initialize_network_snapshot_cache generation = record {
  magic = network_snapshot_cache_magic;
  schema = zigbee_cache_schema;
  size = network_snapshot_size;
  generation = generation;
  known = 0;
  pan_id = 0;
  channel = 0;
  on_network = 0;
  parent_ieee = replicate 24 0;
  extended_pan_id = replicate 40 0;
}
