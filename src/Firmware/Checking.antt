-- ===== src/Firmware/Checking.antt =====
-- The check of the staged image, which is read back from flash before the radio is claimed.
use mathlib.Core.Option.{Option, none, some}
use Prim.Native.String.{String}
use zigbee_gateway.Common.{
  ℕ, ◌+◌, ◌*◌, ◌/◌, ◌-◌, min, bit_xor, Bool, true, false, not, List, leb, ltb, ◌==◌, if◌then◌else◌,
  u8,
}
use zigbee_gateway.Crc.Update.{zigbee_crc32_update}
use zigbee_gateway.Ti.Image.{
  ZigbeeTiCcfgError, no_error, zigbee_ti_ccfg_size, zigbee_ti_image_size_is_compatible,
  zigbee_ti_validate_ccfg,
}
use zigbee_gateway.Firmware.Types.{
  checking_download, entering_bsl, same_bytes, staging_io_block_size, Reason, plain, ccfg_error,
}
use zigbee_gateway.Firmware.Parts.{EspPartition, Sha256}
use zigbee_gateway.Firmware.Manager.{
  Answers, ZigbeeFirmwareManager, begin_flash_stage, fail_firmware_update, publish_flash_progress,
  begin_update,
}
use zigbee_gateway.Firmware.Staging.{invalidate_staged, read_staged_bytes, write_staging_header}
use zigbee_gateway.Firmware.Download.{start_firmware_download}

abbrev pub is_no_error : ZigbeeTiCcfgError → Bool
is_no_error no_error = true
is_no_error _ = false

module _ {C P : Type 0} where
  -- What follows a step that succeeded.
  abbrev pub on_success :
      (ZigbeeFirmwareManager C P → ZigbeeFirmwareManager C P)
      → ZigbeeFirmwareManager C P × Bool
      → ZigbeeFirmwareManager C P
  on_success next (m, true) = next m
  on_success next (m, false) = m

  -- A step that fails the update where it does not succeed.
  abbrev pub or_fail : Reason → ZigbeeFirmwareManager C P × Bool → ZigbeeFirmwareManager C P
  or_fail reason (m, true) = m
  or_fail reason (m, false) = fail_firmware_update reason m

  abbrev pub or_stop : Reason → ZigbeeFirmwareManager C P × Bool → ZigbeeFirmwareManager C P × Bool
  or_stop reason (m, true) = (m, true)
  or_stop reason (m, false) = (fail_firmware_update reason m, false)

  unfoldable pub begin_staged_image_check :
      Sha256 C → ZigbeeFirmwareManager C P → ZigbeeFirmwareManager C P
  unfolding fail_firmware_update begin_flash_stage
  begin_staged_image_check sha m =
      let (started, context) = sha.starts sha.init in
      if not started
      then fail_firmware_update (plain "Could not start staged image verification")
          (record m { staged_image_sha = context })
      else begin_flash_stage checking_download "Verifying staged firmware" (record m {
        staged_image_sha = context;
        staged_image_sha_active = true;
        staged_image_crc = 0xFFFFFFFF;
      })

-- `radio_flash_size_bytes` of the gateway.
abbrev pub radio_flash_size_bytes : ℕ → Answers → ℕ
radio_flash_size_bytes radio_size a = if a.size_known then radio_size else 0

-- `radio_size` is the flash size of the radio, which the gateway may or may not know.
module _ {C P : Type 0} (flash : EspPartition P) (radio_size : ℕ) (a : Answers) where
  abbrev pub drop_staged : ZigbeeFirmwareManager C P → ZigbeeFirmwareManager C P
  drop_staged m = if m.staged_image_valid then (invalidate_staged flash false m).0 else m

  unfoldable pub handle_staged_image_check_failure :
      String → ZigbeeFirmwareManager C P → ZigbeeFirmwareManager C P
  handle_staged_image_check_failure reason m =
      if m.finalize_staging_after_check
      then fail_firmware_update (plain reason) m
      else if not a.connected
      then fail_firmware_update (plain "Staged firmware is corrupt and the network is unavailable")
          (invalidate_staged flash false m).0
      else or_fail (plain "Could not replace invalid staged firmware")
          (start_firmware_download flash a m)

  unfoldable pub validate_staged_image_size :
      ZigbeeFirmwareManager C P → ZigbeeFirmwareManager C P × Bool
  validate_staged_image_size m =
      if not m.gateway
      then (fail_firmware_update (plain "Zigbee gateway is unavailable") m, false)
      else if radio_flash_size_bytes radio_size a == 0
      then (fail_firmware_update (plain "Zigbee radio flash size is unavailable") m, false)
      else if zigbee_ti_image_size_is_compatible m.flash_image_size
          (radio_flash_size_bytes radio_size a)
      then (m, true)
      else (
        fail_firmware_update (plain "Firmware image does not match radio flash size")
            (drop_staged m),
        false,
      )

  -- The candidate's boot configuration, if it could be read.
  abbrev pub judge_ccfg :
      Option (List ℕ) → ZigbeeFirmwareManager C P → ZigbeeFirmwareManager C P × Bool
  judge_ccfg none m =
      (handle_staged_image_check_failure "Could not read candidate TI CCFG" m, false)
  judge_ccfg (some image_tail) m =
      let error =
        (zigbee_ti_validate_ccfg (some image_tail) zigbee_ti_ccfg_size m.bootloader_backdoor_dio
          m.bootloader_backdoor_active_high 0).0 in
      if is_no_error error
      then (m, true)
      else (fail_firmware_update (ccfg_error error) (drop_staged m), false)

  unfoldable pub validate_staged_image_ccfg :
      ZigbeeFirmwareManager C P → ZigbeeFirmwareManager C P × Bool
  unfolding read_staged_bytes
  validate_staged_image_ccfg m =
      judge_ccfg
        (if ltb m.flash_image_size zigbee_ti_ccfg_size
          then none
          else read_staged_bytes flash m (m.flash_image_size - zigbee_ti_ccfg_size)
              zigbee_ti_ccfg_size)
        m

  abbrev pub after_claim : ZigbeeFirmwareManager C P × Bool → ZigbeeFirmwareManager C P
  after_claim (m, true) = begin_flash_stage entering_bsl "Entering radio bootloader" m
  after_claim (m, false) = fail_firmware_update (plain "Could not claim the Zigbee radio") m

  unfoldable pub begin_radio_flash : ZigbeeFirmwareManager C P → ZigbeeFirmwareManager C P
  unfolding begin_update
  begin_radio_flash m =
      on_success (λ m. after_claim (begin_update a.claimed m)) (validate_staged_image_size m)

  -- The header is written for an image that was downloaded.
  unfoldable pub finalize_staging : ZigbeeFirmwareManager C P → ZigbeeFirmwareManager C P × Bool
  finalize_staging m =
      if m.finalize_staging_after_check
      then or_stop (plain "Could not finalize staged firmware") (write_staging_header flash m)
      else (m, true)

  -- An image whose digest is the expected one.
  unfoldable pub accept_image : ZigbeeFirmwareManager C P → ZigbeeFirmwareManager C P
  accept_image m =
      on_success
        (λ m.
          on_success
            (λ m.
              on_success (λ m. begin_radio_flash (publish_flash_progress 35 m))
                (finalize_staging m))
            (validate_staged_image_ccfg m))
        (validate_staged_image_size
          (record m { flash_image_crc = bit_xor m.staged_image_crc 0xFFFFFFFF }))

  -- The digest of the whole image, against the expected one.
  abbrev pub compare_digest : Bool × List ℕ → ZigbeeFirmwareManager C P → ZigbeeFirmwareManager C P
  compare_digest (finished, readback) m =
      if not finished
      then fail_firmware_update (plain "Could not finish staged image verification") m
      else if not (same_bytes readback m.flash_image_digest)
      then handle_staged_image_check_failure "Staged firmware SHA-256 mismatch" m
      else accept_image m

  -- A block of the image that was read, or was not.
  abbrev pub check_block :
      Sha256 C → ℕ → Option (List ℕ) → ZigbeeFirmwareManager C P → ZigbeeFirmwareManager C P
  check_block sha count none m =
      handle_staged_image_check_failure "Could not read staged firmware"
        (record m { staged_image_sha_active = false })
  check_block sha count (some block) m =
      let (updated, context) = sha.update m.staged_image_sha block in
      if not updated
      then fail_firmware_update (plain "Could not verify staged firmware")
          (record m { staged_image_sha = context; staged_image_sha_active = false })
      else publish_flash_progress (u8 (30 + (m.flash_work_offset + count) * 5 / m.flash_image_size))
          (record m {
            staged_image_sha = context;
            staged_image_crc = zigbee_crc32_update m.staged_image_crc block count;
            flash_work_offset = m.flash_work_offset + count;
          })

  unfoldable pub advance_staged_image_check :
      Sha256 C → ZigbeeFirmwareManager C P → ZigbeeFirmwareManager C P
  advance_staged_image_check sha m =
      if not m.staged_image_sha_active
      then m
      else if leb m.flash_image_size m.flash_work_offset
      then compare_digest (sha.finish m.staged_image_sha)
          (record m { staged_image_sha_active = false })
      else let count = min staging_io_block_size (m.flash_image_size - m.flash_work_offset) in
        check_block sha count (read_staged_bytes flash m m.flash_work_offset count) m
