-- ===== src/Firmware/Manager.antt =====
-- The members of `ZigbeeFirmwareManager` that an update uses, and its small methods.
use mathlib.Core.Option.{Option}
use Prim.Native.String.{String}
use zigbee_gateway.Common.{
  ℕ, zero, suc, ◌+◌, Bool, true, false, not, ◌&&◌, ◌||◌, List, ◌∷◌, ◌==◌, leb, ltb, if◌then◌else◌,
  min,
}
use zigbee_gateway.Cache.Text.{c_string}
use zigbee_gateway.Firmware.Types.{
  FirmwareEntry, StagingHeader, FirmwareDownloadResult, FirmwareProbeResult, FlashState,
  checking_freshness, preparing_download, checking_download, entering_bsl, complete, failed,
  RadioFlashStage, RadioFlashResult, DownloadPhase, Reason, Status, stage, failure, GatewayCall,
  begin_local_firmware_update, finish_local_firmware_update, no_header, same_bytes,
}

-- What the world answers while a method runs. `created` is whether the task is created, `size_known`
-- whether the gateway knows the flash size of its radio.
pub record Answers : Type 0 where
  pub connected : Bool
  pub created : Bool
  pub size_known : Bool
  pub claimed : Bool
  pub serial : Bool
  pub ready : Bool

-- `gateway`, `status_sensor` and `progress_sensor` say which pointers are set, and `partition` is
-- the content of the staging partition. `local_update_active` is the gateway's member, and
-- `local_update_settling` whether it waits for the application to start. `statuses`, `progresses` and `calls` are what the sensors
-- and the gateway were given, the newest first.
pub record ZigbeeFirmwareManager (C P : Type 0) : Type 0 where
  pub gateway : Bool
  pub local_update_active : Bool
  pub local_update_settling : Bool
  pub partition : Option P
  pub bootloader_backdoor_dio : ℕ
  pub bootloader_backdoor_active_high : Bool
  pub status_sensor : Bool
  pub progress_sensor : Bool
  pub flash_entry : FirmwareEntry
  pub staged_header : StagingHeader
  pub staged_image_valid : Bool
  pub finalize_staging_after_check : Bool
  pub probe_result : FirmwareProbeResult
  pub probe_running : Bool
  pub probe_done : Bool
  pub download_result : FirmwareDownloadResult
  pub download_sha : C
  pub download_running : Bool
  pub download_done : Bool
  pub download_phase : DownloadPhase
  pub staging_erase_bytes : ℕ
  pub download_bytes : ℕ
  pub download_total : ℕ
  pub staged_image_sha : C
  pub staged_image_sha_active : Bool
  pub staged_image_crc : ℕ
  pub radio_flash_serial : Bool
  pub radio_flash_result : RadioFlashResult
  pub radio_flash_running : Bool
  pub radio_flash_done : Bool
  pub radio_flash_stage : RadioFlashStage
  pub radio_flash_progress : ℕ
  pub published_radio_flash_stage : RadioFlashStage
  pub flash_state : FlashState
  pub flash_work_offset : ℕ
  pub flash_image_size : ℕ
  pub flash_image_digest : List ℕ
  pub flash_image_crc : ℕ
  pub last_flash_progress : ℕ
  pub next_flash_progress_log : ℕ
  pub statuses : List Status
  pub progresses : List ℕ
  pub calls : List GatewayCall

-- Whether `flash_active_` counts a state.
unfoldable pub is_active_state : FlashState → Bool
is_active_state FlashState.idle = false
is_active_state complete = false
is_active_state failed = false
is_active_state checking_freshness = true
is_active_state preparing_download = true
is_active_state FlashState.downloading = true
is_active_state checking_download = true
is_active_state entering_bsl = true
is_active_state FlashState.erasing = true
is_active_state FlashState.writing = true
is_active_state FlashState.verifying = true
is_active_state FlashState.restarting = true

-- The loop that moves the next logged progress on, by ten up to 100. It takes ten rounds at most.
unfoldable pub log_loop : ℕ → ℕ → ℕ → ℕ
log_loop zero progress next = next
log_loop (suc fuel) progress next =
    let rest = log_loop fuel progress (next + 10) in
    if leb next progress && ltb next 100 then rest else next

module _ {C P : Type 0} where
  unfoldable pub flash_active : ZigbeeFirmwareManager C P → Bool
  unfolding is_active_state
  flash_active m = is_active_state m.flash_state

  unfoldable pub publish_status : Status → ZigbeeFirmwareManager C P → ZigbeeFirmwareManager C P
  publish_status status m = record m {
    statuses = if m.status_sensor then status ∷ m.statuses else m.statuses;
  }

  unfoldable pub publish_flash_progress : ℕ → ZigbeeFirmwareManager C P → ZigbeeFirmwareManager C P
  unfolding log_loop
  publish_flash_progress value m =
      let progress = min value 100 in
      let same = progress == m.last_flash_progress in
      record m {
        last_flash_progress = progress;
        progresses =
            if same
            then m.progresses
            else if m.progress_sensor
            then progress ∷ m.progresses
            else m.progresses;
        next_flash_progress_log =
            if same
            then m.next_flash_progress_log
            else if leb m.next_flash_progress_log progress
            then log_loop 10 progress m.next_flash_progress_log
            else m.next_flash_progress_log;
      }

  unfoldable pub begin_flash_stage :
      FlashState → String → ZigbeeFirmwareManager C P → ZigbeeFirmwareManager C P
  unfolding publish_status
  begin_flash_stage state status m =
      publish_status (stage status) (record m { flash_state = state; flash_work_offset = 0 })

  unfoldable pub fail_firmware_update :
      Reason → ZigbeeFirmwareManager C P → ZigbeeFirmwareManager C P
  unfolding publish_status
  fail_firmware_update reason m =
      publish_status (failure reason)
        (record m { staged_image_sha_active = false; flash_state = failed })

  unfoldable pub finish_firmware_update : ZigbeeFirmwareManager C P → ZigbeeFirmwareManager C P
  unfolding publish_status publish_flash_progress
  finish_firmware_update m =
      publish_status (stage "Complete")
        (publish_flash_progress 100 (record m { flash_state = complete }))

  unfoldable pub clear_staged_image_runtime : ZigbeeFirmwareManager C P → ZigbeeFirmwareManager C P
  clear_staged_image_runtime m = record m { staged_header = no_header; staged_image_valid = false }

  unfoldable pub staged_image_matches : FirmwareEntry → ZigbeeFirmwareManager C P → Bool
  unfolding same_bytes
  staged_image_matches entry m =
      m.staged_image_valid
      && (same_bytes entry.role (c_string m.staged_header.role)
          && (same_bytes entry.version (c_string m.staged_header.version)
              && same_bytes entry.filename (c_string m.staged_header.filename)))

  -- A call of the gateway.
  unfoldable pub call_gateway : GatewayCall → ZigbeeFirmwareManager C P → ZigbeeFirmwareManager C P
  call_gateway c m = record m { calls = c ∷ m.calls }

  -- `begin_local_firmware_update` of the gateway, which refuses while an operation is active.
  unfoldable pub begin_update : Bool → ZigbeeFirmwareManager C P → ZigbeeFirmwareManager C P × Bool
  unfolding call_gateway
  begin_update claimed m =
      let m' = call_gateway begin_local_firmware_update m in
      if m.local_update_active
      then (m', false)
      else if not claimed
      then (m', false)
      else (record m' { local_update_active = true; local_update_settling = false }, true)

  -- `finish_local_firmware_update` of the gateway.
  unfoldable pub finish_update : Bool → ZigbeeFirmwareManager C P → ZigbeeFirmwareManager C P
  unfolding call_gateway
  finish_update acknowledged m =
      record (call_gateway (finish_local_firmware_update acknowledged) m) {
        local_update_settling = m.local_update_active || m.local_update_settling;
      }

  -- `complete_local_firmware_update_` of the gateway, which a timer calls once the update settles.
  unfoldable pub complete_update : ZigbeeFirmwareManager C P → ZigbeeFirmwareManager C P
  complete_update m = record m {
    local_update_active = m.local_update_active && not m.local_update_settling;
    local_update_settling = false;
  }
