-- ===== src/Firmware/Update.antt =====
-- An update from its start to its end: the choice of the image, the tasks that are started and their
-- results, and the turns of the main loop.
use mathlib.Core.Option.{Option, none, some}
use Prim.Native.String.{String}
use zigbee_gateway.Common.{
  ℕ, ◌+◌, ◌*◌, ◌/◌, ◌-◌, min, Bool, true, false, not, ◌&&◌, ◌||◌, List, [], ◌∷◌, ◌==◌,
  if◌then◌else◌, u8, replicate,
}
use zigbee_gateway.Firmware.Types.{
  FirmwareEntry, FirmwareProbeResult, FlashState, checking_freshness, preparing_download,
  checking_download, entering_bsl, complete, failed, RadioFlashStage, syncing, RadioFlashError,
  no_error, invalid_image_size, bsl_sync_failed, bank_erase_failed, download_failed,
  staging_read_failed, send_data_failed, staging_crc_mismatch, RadioFlashResult, DownloadPhase,
  erasing_staging, FirmwareDownloadResult, Reason, plain, coded, incomplete, stage, same_stage,
  staging_header_size, record_local_radio_erase, record_local_firmware_install, Status,
}
use zigbee_gateway.Firmware.Parts.{EspPartition, Sha256}
use zigbee_gateway.Firmware.Manager.{
  Answers, ZigbeeFirmwareManager, begin_flash_stage, fail_firmware_update, finish_firmware_update,
  publish_flash_progress, publish_status, call_gateway, finish_update, flash_active,
  staged_image_matches,
}
use zigbee_gateway.Firmware.Staging.{invalidate_staged}
use zigbee_gateway.Firmware.Download.{esp_fail, start_firmware_download}
use zigbee_gateway.Firmware.Checking.{begin_staged_image_check, advance_staged_image_check, or_fail}

abbrev pub new_probe_result : FirmwareProbeResult
new_probe_result = record { error = esp_fail; status_code = esp_fail; etag = [] }

abbrev pub new_radio_flash_result : RadioFlashResult
new_radio_flash_result = record {
  error = no_error;
  bank_erased = false;
  bootloader_reset_acknowledged = false;
  rom_status = 0;
  offset = 0;
  local_crc = 0;
  verified_crc = 0;
}

abbrev pub radio_flash_error_name : RadioFlashError → String
radio_flash_error_name no_error = "none"
radio_flash_error_name invalid_image_size = "invalid image size"
radio_flash_error_name bsl_sync_failed = "radio bootloader synchronization failed"
radio_flash_error_name bank_erase_failed = "radio erase failed"
radio_flash_error_name download_failed = "radio download initialization failed"
radio_flash_error_name staging_read_failed = "staged firmware read failed"
radio_flash_error_name send_data_failed = "radio write failed"
radio_flash_error_name staging_crc_mismatch = "staged firmware changed during radio write"

abbrev pub is_none : RadioFlashError → Bool
is_none no_error = true
is_none _ = false

-- The state that a new stage of the radio task leads to.
abbrev pub radio_state : RadioFlashStage → FlashState → FlashState
radio_state RadioFlashStage.idle before = before
radio_state syncing before = entering_bsl
radio_state RadioFlashStage.erasing before = FlashState.erasing
radio_state RadioFlashStage.writing before = FlashState.writing
radio_state RadioFlashStage.verifying before = FlashState.verifying
radio_state RadioFlashStage.restarting before = FlashState.restarting

abbrev pub stage_statuses : RadioFlashStage → List Status → List Status
stage_statuses RadioFlashStage.idle before = before
stage_statuses syncing before = stage "Synchronizing radio bootloader" ∷ before
stage_statuses RadioFlashStage.erasing before = stage "Erasing radio" ∷ before
stage_statuses RadioFlashStage.writing before = stage "Writing radio" ∷ before
stage_statuses RadioFlashStage.verifying before = stage "Verifying radio" ∷ before
stage_statuses RadioFlashStage.restarting before = stage "Restarting radio" ∷ before

-- Why a download cannot be used, if it cannot: the first of the tests that fails.
unfoldable pub download_failure : FirmwareDownloadResult → Option Reason
download_failure r =
    if not (r.staging_error == 0)
    then some (coded "Firmware storage failed: " r.staging_error)
    else if r.hash_failed
    then some (plain "Firmware SHA-256 failed")
    else if r.body_too_large
    then some (plain "Firmware exceeds the 704 KiB radio flash")
    else if not (r.error == 0)
    then some (coded "Download failed: " r.error)
    else if not (r.status_code == 200)
    then some (coded "Download failed: HTTP " r.status_code)
    else if r.received_length == 0
    then some (plain "Download failed: empty image")
    else if not (r.declared_length == 0) && not (r.declared_length == r.received_length)
    then some (incomplete r.declared_length r.received_length)
    else none

module _ {C P : Type 0} where
  unfoldable pub use_staged_firmware :
      Sha256 C → ZigbeeFirmwareManager C P → ZigbeeFirmwareManager C P
  use_staged_firmware sha m =
      if not m.staged_image_valid
      then fail_firmware_update (plain "No valid staged firmware is available") m
      else begin_staged_image_check sha (
          publish_flash_progress 30 (record m {
            flash_image_size = m.staged_header.image_size;
            flash_image_digest = m.staged_header.digest;
            finalize_staging_after_check = false;
          }))

  abbrev pub or_use_staged : Sha256 C → ZigbeeFirmwareManager C P × Bool → ZigbeeFirmwareManager C P
  or_use_staged sha (m, true) = m
  or_use_staged sha (m, false) = use_staged_firmware sha m

  unfoldable pub start_firmware_probe :
      Answers → ZigbeeFirmwareManager C P → ZigbeeFirmwareManager C P × Bool
  unfolding begin_flash_stage
  start_firmware_probe a m =
      let m' =
        begin_flash_stage checking_freshness "Checking staged firmware freshness" (record m {
          probe_result = new_probe_result;
          probe_done = false;
          probe_running = true;
        }) in
      if not a.created then (record m' { probe_running = false }, false) else (m', true)

  -- The probe task: what the client reports, if it could be made, and the entity tag that came.
  unfoldable pub firmware_probe_task :
      Option (ℕ × ℕ) → List ℕ → ZigbeeFirmwareManager C P → ZigbeeFirmwareManager C P
  firmware_probe_task none etag m = record m {
    probe_result = record m.probe_result { error = 0x101 };
    probe_running = false;
    probe_done = true;
  }
  firmware_probe_task (some (error, status_code)) etag m = record m {
    probe_result = record { error = error; status_code = status_code; etag = etag };
    probe_running = false;
    probe_done = true;
  }

  abbrev pub check_or_fail :
      Sha256 C → Option Reason → ZigbeeFirmwareManager C P → ZigbeeFirmwareManager C P
  check_or_fail sha (some reason) m = fail_firmware_update reason m
  check_or_fail sha none m = begin_staged_image_check sha (
      publish_flash_progress 30 (record m {
        flash_image_size = m.download_result.received_length;
        flash_image_digest = m.download_result.digest;
      }))

  unfoldable pub handle_firmware_download_result :
      Sha256 C → ZigbeeFirmwareManager C P → ZigbeeFirmwareManager C P
  unfolding download_failure
  handle_firmware_download_result sha m = check_or_fail sha (download_failure m.download_result) m

  abbrev pub received_progress : ZigbeeFirmwareManager C P → ZigbeeFirmwareManager C P
  received_progress m =
      if m.download_total == 0
      then m
      else publish_flash_progress (u8 (min 29 (5 + m.download_bytes * 25 / m.download_total))) m

  abbrev pub erase_progress : ℕ → ZigbeeFirmwareManager C P → ZigbeeFirmwareManager C P
  erase_progress partition_size m =
      publish_flash_progress
        (u8 (min 4 (m.staging_erase_bytes * 5 / (partition_size - staging_header_size)))) m

  abbrev pub progress_of :
      DownloadPhase → FlashState → ℕ → ZigbeeFirmwareManager C P → ZigbeeFirmwareManager C P
  progress_of erasing_staging state partition_size m = erase_progress partition_size m
  progress_of DownloadPhase.downloading preparing_download partition_size m =
      received_progress (begin_flash_stage FlashState.downloading "Downloading firmware" m)
  progress_of phase state partition_size m = received_progress m

  unfoldable pub update_download_progress :
      ℕ → ZigbeeFirmwareManager C P → ZigbeeFirmwareManager C P
  unfolding begin_flash_stage
  update_download_progress partition_size m =
      progress_of m.download_phase m.flash_state partition_size m

  unfoldable pub update_radio_flash_status : ZigbeeFirmwareManager C P → ZigbeeFirmwareManager C P
  unfolding publish_flash_progress
  update_radio_flash_status m =
      let same = same_stage m.radio_flash_stage m.published_radio_flash_stage in
      publish_flash_progress m.radio_flash_progress (record m {
        published_radio_flash_stage = m.radio_flash_stage;
        flash_state = if same then m.flash_state else radio_state m.radio_flash_stage m.flash_state;
        statuses =
            if same
            then m.statuses
            else if m.status_sensor
            then stage_statuses m.radio_flash_stage m.statuses
            else m.statuses;
      })

  unfoldable pub start_radio_flash_task :
      Answers → ZigbeeFirmwareManager C P → ZigbeeFirmwareManager C P
  unfolding finish_update
  start_radio_flash_task a m =
      if m.radio_flash_running || m.radio_flash_done
      then m
      else if not a.serial
      then finish_update false (
          fail_firmware_update (plain "Zigbee bootloader UART is unavailable")
            (record m { radio_flash_serial = false }))
      else let m' = record m {
        radio_flash_serial = true;
        radio_flash_result = new_radio_flash_result;
        radio_flash_stage = syncing;
        radio_flash_progress = 35;
        published_radio_flash_stage = RadioFlashStage.idle;
        radio_flash_done = false;
        radio_flash_running = true;
      } in
        if not a.created
        then finish_update false (
            fail_firmware_update (plain "Could not create radio firmware task")
              (record m' { radio_flash_running = false }))
        else update_radio_flash_status m'

  abbrev pub or_show_failure : ZigbeeFirmwareManager C P × Bool → ZigbeeFirmwareManager C P
  or_show_failure (m, true) = m
  or_show_failure (m, false) = publish_status (stage "Failed to invalidate staged firmware") m

  -- The erase of the radio is recorded.
  unfoldable pub record_erase : ZigbeeFirmwareManager C P → ZigbeeFirmwareManager C P
  record_erase m = record m {
    calls =
        if m.radio_flash_result.bank_erased && m.gateway
        then record_local_radio_erase ∷ m.calls
        else m.calls;
  }

  -- The result, once the stage is published; `text` is the role as it is displayed.
  unfoldable pub settle_radio : List ℕ → ZigbeeFirmwareManager C P → ZigbeeFirmwareManager C P
  unfolding call_gateway finish_update
  settle_radio text m =
      let r = m.radio_flash_result in
      if not (is_none r.error)
      then fail_firmware_update (plain (radio_flash_error_name r.error))
          (if m.gateway then finish_update false m else m)
      else if m.gateway
      then finish_update r.bootloader_reset_acknowledged
          (call_gateway (record_local_firmware_install m.flash_entry.version text) m)
      else finish_firmware_update m

  unfoldable pub handle_radio_flash_result :
      List ℕ → ZigbeeFirmwareManager C P → ZigbeeFirmwareManager C P
  unfolding record_erase settle_radio update_radio_flash_status
  handle_radio_flash_result text m = settle_radio text (record_erase (update_radio_flash_status m))

module _ {C P : Type 0} (flash : EspPartition P) where
  -- `invalidate_staged_firmware`
  unfoldable pub invalidate_staged_firmware : ZigbeeFirmwareManager C P → ZigbeeFirmwareManager C P
  unfolding flash_active publish_status
  invalidate_staged_firmware m =
      if flash_active m then m else or_show_failure (invalidate_staged flash true m)

module _ {C P : Type 0} (flash : EspPartition P) (radio_size : ℕ) (sha : Sha256 C)
    (a : Answers) where
  unfoldable pub handle_firmware_probe_result :
      ZigbeeFirmwareManager C P → ZigbeeFirmwareManager C P
  handle_firmware_probe_result m =
      if m.probe_result.error == 0 && m.probe_result.status_code == 200
      then or_fail (plain "Could not start replacement download")
          (start_firmware_download flash a m)
      else use_staged_firmware sha m

  -- The update by the image that is staged.
  unfoldable pub start_staged : ZigbeeFirmwareManager C P → ZigbeeFirmwareManager C P
  start_staged m =
      let m' = record m {
        flash_image_size = m.staged_header.image_size;
        flash_image_digest = m.staged_header.digest;
      } in
      if not a.connected
      then use_staged_firmware sha m'
      else or_use_staged sha (start_firmware_probe a m')

  -- The update of the selected entry.
  unfoldable pub start_selected :
      FirmwareEntry → ZigbeeFirmwareManager C P → ZigbeeFirmwareManager C P
  start_selected entry m =
      let m' = publish_flash_progress 0 (record m {
        flash_entry = entry;
        flash_image_size = 0;
        flash_image_digest = replicate 32 0;
        last_flash_progress = 255;
        next_flash_progress_log = 10;
      }) in
      if staged_image_matches entry m'
      then start_staged m'
      else if not a.connected
      then fail_firmware_update (plain "Network unavailable and selected firmware is not staged") m'
      else or_fail (plain "Could not start download task") (start_firmware_download flash a m')

  abbrev pub start_if_selected :
      Option FirmwareEntry → ZigbeeFirmwareManager C P → ZigbeeFirmwareManager C P
  start_if_selected none m = fail_firmware_update (plain "Select firmware first") m
  start_if_selected (some entry) m = start_selected entry m

  abbrev pub start_at :
      Option P → Bool → Option FirmwareEntry → ZigbeeFirmwareManager C P → ZigbeeFirmwareManager C P
  start_at none catalog_busy selected m =
      fail_firmware_update (plain "Firmware staging unavailable") m
  start_at (some p) catalog_busy selected m =
      if catalog_busy
      then fail_firmware_update (plain "Catalog refresh is active") m
      else start_if_selected selected m

  -- `catalog_busy` is whether a refresh is requested, under way or done, and `selected` what
  -- `find_entry_` finds.
  unfoldable pub start_firmware_update :
      Bool → Option FirmwareEntry → ZigbeeFirmwareManager C P → ZigbeeFirmwareManager C P
  unfolding flash_active start_selected
  start_firmware_update catalog_busy selected m =
      if flash_active m then m else start_at m.partition catalog_busy selected m

  -- A turn of the main loop in a state, when no task has left a result.
  unfoldable pub advance : FlashState → ZigbeeFirmwareManager C P → ZigbeeFirmwareManager C P
  advance FlashState.downloading m = update_download_progress flash.size m
  advance preparing_download m = update_download_progress flash.size m
  advance checking_download m = advance_staged_image_check flash radio_size a sha m
  advance entering_bsl m =
      if m.radio_flash_running
      then update_radio_flash_status m
      else if m.gateway && (a.ready && (m.local_update_active && not m.local_update_settling))
      then start_radio_flash_task a m
      else m
  advance FlashState.erasing m = update_radio_flash_status m
  advance FlashState.writing m = update_radio_flash_status m
  advance FlashState.verifying m = update_radio_flash_status m
  advance FlashState.restarting m =
      if m.gateway && not m.local_update_active then finish_firmware_update m else m
  advance FlashState.idle m = m
  advance checking_freshness m = m
  advance complete m = m
  advance failed m = m

  -- `loop`, behind the turn of the catalogue.
  unfoldable pub loop : List ℕ → ZigbeeFirmwareManager C P → ZigbeeFirmwareManager C P
  unfolding advance
  loop text m =
      if m.probe_done
      then handle_firmware_probe_result (record m { probe_done = false })
      else if m.download_done
      then handle_firmware_download_result sha (record m { download_done = false })
      else if m.radio_flash_done
      then handle_radio_flash_result text (record m { radio_flash_done = false })
      else advance m.flash_state m
