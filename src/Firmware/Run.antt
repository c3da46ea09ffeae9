-- ===== src/Firmware/Run.antt =====
-- The manager through any calls of its public methods, turns of the main loop and steps of its
-- tasks, in any order.
use mathlib.Core.Option.{Option}
use zigbee_gateway.Common.{ℕ, Bool, true, false, List, [], ◌∷◌, if◌then◌else◌}
use zigbee_gateway.Firmware.Types.{RadioFlashStage, RadioFlashResult, FirmwareEntry}
use zigbee_gateway.Firmware.Parts.{EspPartition, Sha256}
use zigbee_gateway.Firmware.Manager.{Answers, ZigbeeFirmwareManager, complete_update}
use zigbee_gateway.Firmware.Download.{
  HttpEvent, HttpEnd, download_begins, firmware_http_event, download_ends,
}
use zigbee_gateway.Firmware.Update.{
  start_firmware_update, invalidate_staged_firmware, loop, firmware_probe_task,
}

-- A call, a turn, or a step of a task, with what the world answers.
pub data Command : Type 0 where
  updates : Bool → Option FirmwareEntry → Answers → Command
  invalidates : Command
  turns : List ℕ → Answers → Command
  probe_over : Option (ℕ × ℕ) → List ℕ → Command
  download_starts : Command
  download_receives : HttpEvent → Command
  download_over : Option HttpEnd → Command
  radio_reports : RadioFlashStage → ℕ → Command
  radio_over : RadioFlashResult → Command
  gateway_completes : Command

module _ {C P : Type 0} where
  unfoldable pub radio_reported :
      RadioFlashStage → ℕ → ZigbeeFirmwareManager C P → ZigbeeFirmwareManager C P
  radio_reported st progress m = record m {
    radio_flash_stage = st;
    radio_flash_progress = progress;
  }

  -- The end of the radio task, whatever its result.
  unfoldable pub radio_ended :
      RadioFlashResult → ZigbeeFirmwareManager C P → ZigbeeFirmwareManager C P
  radio_ended result m = record m {
    radio_flash_result = result;
    radio_flash_running = false;
    radio_flash_done = true;
  }

-- A task only takes steps while it runs.
module _ {C P : Type 0} (flash : EspPartition P) (radio_size : ℕ) (sha : Sha256 C) where
  unfoldable pub step : Command → ZigbeeFirmwareManager C P → ZigbeeFirmwareManager C P
  unfolding complete_update
  step (updates busy selected a) m = start_firmware_update flash radio_size sha a busy selected m
  step invalidates m = invalidate_staged_firmware flash m
  step (turns text a) m = loop flash radio_size sha a text m
  step (probe_over reply etag) m = if m.probe_running then firmware_probe_task reply etag m else m
  step download_starts m = if m.download_running then download_begins flash sha m else m
  step (download_receives event) m =
      if m.download_running then (firmware_http_event flash sha event m).0 else m
  step (download_over end) m = if m.download_running then download_ends flash sha end m else m
  step (radio_reports st progress) m =
      if m.radio_flash_running then radio_reported st progress m else m
  step (radio_over result) m = if m.radio_flash_running then radio_ended result m else m
  step gateway_completes m = complete_update m

  unfoldable pub run : List Command → ZigbeeFirmwareManager C P → ZigbeeFirmwareManager C P
  unfolding step
  run [] m = m
  run (c ∷ cs) m = run cs (step c m)
