-- ===== src/Firmware/Staging.antt =====
-- The staging partition: the header of a staged image, and the reads of the image.
use mathlib.Core.Option.{Option, none, some}
use zigbee_gateway.Common.{
  ℕ, ◌+◌, ◌-◌, ◌*◌, Bool, true, false, not, ◌||◌, List, [], ◌∷◌, ◌++◌, ltb, ◌==◌, if◌then◌else◌, u8,
  u32, ◌>>◌, get_or, take, drop, length, replicate,
}
use zigbee_gateway.Cache.Text.{zigbee_cache_text_is_terminated}
use zigbee_gateway.Firmware.Types.{
  StagingHeader, staging_header_size, staging_magic, staging_schema, staging_etag_size,
  max_firmware_image_size, same_bytes, stage,
}
use zigbee_gateway.Firmware.Parts.{EspPartition}
use zigbee_gateway.Firmware.Manager.{
  ZigbeeFirmwareManager, clear_staged_image_runtime, publish_status, publish_flash_progress,
}

-- `strncpy` of a text into a cleared array of `n` characters, all but the last of them.
unfoldable pub fixed_text : ℕ → List ℕ → List ℕ
fixed_text n source = let kept = take (n - 1) source in kept ++ replicate (n - length kept) 0

abbrev pub le_bytes : ℕ → List ℕ
le_bytes w = u8 w ∷ u8 (w >> 8) ∷ u8 (w >> 16) ∷ u8 (w >> 24) ∷ []

-- A little-endian word that starts at an offset.
abbrev pub le_word : List ℕ → ℕ → ℕ
le_word bytes at =
    let tail = drop at bytes in
    get_or tail 0 0 + get_or tail 1 0 * 256 + get_or tail 2 0 * 65536 + get_or tail 3 0 * 16777216

abbrev pub header_length : ℕ
header_length = 416

-- The fields of a header, which lie one behind the other.
abbrev pub header_fields : StagingHeader → List ℕ
header_fields h =
    le_bytes h.magic
    ++ (u8 h.schema
        ∷ u8 (h.schema >> 8)
        ∷ u8 h.state
        ∷ u8 h.reserved
        ∷ (le_bytes h.image_size
            ++ (le_bytes h.baud_rate
                ++ (h.digest ++ (h.role ++ (h.version ++ (h.filename ++ h.etag)))))))

-- The memory of a header.
unfoldable pub header_bytes : StagingHeader → List ℕ
header_bytes h = take header_length (header_fields h)

unfoldable pub header_of_bytes : List ℕ → StagingHeader
header_of_bytes bytes = record {
  magic = le_word bytes 0;
  schema = get_or bytes 4 0 + get_or bytes 5 0 * 256;
  state = get_or bytes 6 0;
  reserved = get_or bytes 7 0;
  image_size = le_word bytes 8;
  baud_rate = le_word bytes 12;
  digest = take 32 (drop 16 bytes);
  role = take 16 (drop 48 bytes);
  version = take 64 (drop 64 bytes);
  filename = take 128 (drop 128 bytes);
  etag = take staging_etag_size (drop 256 bytes);
}

-- The test of `load_staged_image_`.
unfoldable pub is_verified_header : StagingHeader → Bool
is_verified_header h = not (
    (not (h.magic == staging_magic))
    || ((not (h.schema == staging_schema))
        || ((not (h.state == 1))
            || (h.image_size == 0
                || (ltb max_firmware_image_size h.image_size
                    || ((not (zigbee_cache_text_is_terminated h.role))
                        || ((not (zigbee_cache_text_is_terminated h.version))
                            || ((not (zigbee_cache_text_is_terminated h.filename))
                                || ((not (zigbee_cache_text_is_terminated h.etag))
                                    || (get_or h.role 0 0 == 0
                                        || (get_or h.version 0 0 == 0
                                            || get_or h.filename 0 0 == 0)))))))))))

abbrev pub read_at : {P : Type 0} → EspPartition P → Option P → ℕ → ℕ → Option (List ℕ)
read_at flash none offset count = none
read_at flash (some p) offset count = flash.read p offset count

module _ {C P : Type 0} where
  -- The header that an update writes for its image.
  unfoldable pub new_header : ZigbeeFirmwareManager C P → StagingHeader
  unfolding fixed_text
  new_header m = record {
    magic = staging_magic;
    schema = staging_schema;
    state = 1;
    reserved = 0;
    image_size = u32 m.flash_image_size;
    baud_rate = m.flash_entry.baud_rate;
    digest = m.flash_image_digest;
    role = fixed_text 16 m.flash_entry.role;
    version = fixed_text 64 m.flash_entry.version;
    filename = fixed_text 128 m.flash_entry.filename;
    etag = fixed_text staging_etag_size m.download_result.etag;
  }

  -- What is read back is compared with what was written.
  abbrev pub after_readback :
      StagingHeader → ZigbeeFirmwareManager C P → Option (List ℕ) → ZigbeeFirmwareManager C P × Bool
  after_readback header m none = (m, false)
  after_readback header m (some readback) =
      if not (same_bytes (header_bytes header) readback) then (m, false) else (
        record m {
          staged_header = header_of_bytes readback;
          staged_image_valid = true;
          finalize_staging_after_check = false;
        },
        true,
      )

  -- The result of an erase of the header.
  abbrev pub after_erase :
      Bool → ZigbeeFirmwareManager C P → ℕ × P → ZigbeeFirmwareManager C P × Bool
  after_erase publishes m (error, p) =
      let m' = record m { partition = some p } in
      if not (error == 0)
      then (m', false)
      else let cleared = clear_staged_image_runtime m' in
        (
          if publishes
              then publish_flash_progress 0 (publish_status (stage "No staged firmware") cleared)
              else cleared,
          true,
        )

  abbrev pub if_verified :
      ZigbeeFirmwareManager C P → Option (List ℕ) → ZigbeeFirmwareManager C P × Bool
  if_verified m none = (m, false)
  if_verified m (some bytes) =
      let header = header_of_bytes bytes in
      if is_verified_header header
      then (record m { staged_header = header; staged_image_valid = true }, true)
      else (m, false)

module _ {C P : Type 0} (flash : EspPartition P) where
  -- The bytes that `read_staged_bytes_` stores, if it succeeds.
  unfoldable pub read_staged_bytes : ZigbeeFirmwareManager C P → ℕ → ℕ → Option (List ℕ)
  read_staged_bytes m offset count =
      if ltb m.flash_image_size (offset + count)
        || ltb flash.size (staging_header_size + offset + count)
      then none
      else read_at flash m.partition (staging_header_size + offset) count

  abbrev pub write_header_at :
      StagingHeader → Option P → ZigbeeFirmwareManager C P → ZigbeeFirmwareManager C P × Bool
  write_header_at header none m = (m, false)
  write_header_at header (some p) m =
      let (error, p') = flash.write p 0 (header_bytes header) in
      let written = record m { partition = some p' } in
      if not (error == 0)
      then (written, false)
      else after_readback header written (flash.read p' 0 header_length)

  unfoldable pub write_staging_header : ZigbeeFirmwareManager C P → ZigbeeFirmwareManager C P × Bool
  unfolding new_header same_bytes header_bytes header_of_bytes
  write_staging_header m = write_header_at (new_header m) m.partition m

  unfoldable pub load_staged_image : ZigbeeFirmwareManager C P → ZigbeeFirmwareManager C P × Bool
  unfolding clear_staged_image_runtime header_of_bytes is_verified_header
  load_staged_image m =
      if_verified (clear_staged_image_runtime m) (read_at flash m.partition 0 header_length)

  abbrev pub invalidate_at :
      Bool → Option P → ZigbeeFirmwareManager C P → ZigbeeFirmwareManager C P × Bool
  invalidate_at publishes none m = (m, false)
  invalidate_at publishes (some p) m =
      after_erase publishes m (flash.erase_range p 0 staging_header_size)

  -- `invalidate_staged_firmware_`
  unfoldable pub invalidate_staged :
      Bool → ZigbeeFirmwareManager C P → ZigbeeFirmwareManager C P × Bool
  unfolding clear_staged_image_runtime publish_status publish_flash_progress
  invalidate_staged publishes m = invalidate_at publishes m.partition m
