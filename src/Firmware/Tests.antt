-- ===== src/Firmware/Tests.antt =====
-- An update from a staged image, without a network.
use mathlib.Core.Option.{Option, none, some}
use zigbee_gateway.Common.{
  ℕ, ◌≡◌, refl, arith, true, false, List, [], ◌∷◌, ◌++◌, length, take, drop, replicate, ◌==◌,
  if◌then◌else◌, if-rule, ap,
}
use zigbee_gateway.Firmware.Types.{
  FirmwareEntry, no_header, staging_header_size, FlashState, RadioFlashStage, DownloadPhase,
}
use zigbee_gateway.Firmware.Parts.{EspPartition, IsFlash, Sha256, IsSha}
use zigbee_gateway.Firmware.Manager.{Answers, ZigbeeFirmwareManager, is_active_state}
use zigbee_gateway.Firmware.Download.{new_download_result}
use zigbee_gateway.Firmware.Update.{new_probe_result, new_radio_flash_result}
use zigbee_gateway.Firmware.Update.{
  loop, advance, start_firmware_update, start_selected, start_staged, use_staged_firmware,
}
use zigbee_gateway.Firmware.Manager.{
  staged_image_matches, publish_flash_progress, log_loop, publish_status, begin_flash_stage,
  fail_firmware_update, call_gateway, begin_update, flash_active,
}
use zigbee_gateway.Firmware.Checking.{
  begin_staged_image_check, advance_staged_image_check, accept_image, validate_staged_image_size,
  validate_staged_image_ccfg, finalize_staging, begin_radio_flash,
  handle_staged_image_check_failure,
}
use zigbee_gateway.Firmware.Staging.{read_staged_bytes}
use zigbee_gateway.Firmware.Types.{same_bytes}
use zigbee_gateway.Ti.Image.{
  zigbee_ti_image_size_is_compatible, zigbee_ti_validate_ccfg, zigbee_ti_parse_ccfg, parsed_ccfg,
  check_ccfg, check_protection, zigbee_ti_decode_u32_le,
}
use zigbee_gateway.Firmware.Run.{step}
use zigbee_gateway.Firmware.Verified.{Verified}
use zigbee_gateway.Firmware.Run.{Command, updates, turns, run}
use zigbee_gateway.Firmware.Handling.{is_flashing}
use zigbee_gateway.Firmware.Reached.{run-Verified}

-- A partition that can only be read, with an image behind an empty header.
abbrev stored : List ℕ → List ℕ
stored image = replicate staging_header_size 0 ++ image

read_only : EspPartition (List ℕ)
read_only = record {
  size = 0xC0000;
  read = λ p offset n.
      let out = take n (drop offset (stored p)) in if length out == n then some out else none;
  write = λ p offset out. (1, p);
  erase_range = λ p offset n. (1, p);
}

read_only-IsFlash : IsFlash read_only stored
unfolding read_only
read_only-IsFlash = record {
  read_bytes = λ p offset n out. whole (take n (drop offset (stored p))) n out;
  write_header = λ p out h. refl;
  erase_header = λ p. refl;
}
  where
    whole :
        (slice : List ℕ) (n : ℕ) (out : List ℕ)
        → (if length slice == n then some slice else none) ≡ some out
        → (out ≡ slice) × (length out ≡ n)
    whole slice n out =
        if-rule (λ (o : Option (List ℕ)). o ≡ some out → (out ≡ slice) × (length out ≡ n))
          (length slice == n) (λ same e. (ground arith, ground arith)) (λ _ e. cc)

-- A digest that is the message itself.
plain_digest : Sha256 (List ℕ)
plain_digest = record {
  init = [];
  starts = λ c. (true, []);
  update = λ c out. (true, c ++ out);
  finish = λ c. (true, c);
}

plain_digest-IsSha : IsSha plain_digest (λ c. c) (λ c. c)
unfolding plain_digest
plain_digest-IsSha = record {
  starts_given = λ c e. refl;
  update_given = λ c out e. refl;
  finish_hash = λ c e. refl;
}

-- An image that is only a boot configuration: the bootloader by DIO 15, active high.
abbrev image : List ℕ
image =
    replicate 48 0
    ++ (0xC5 ∷ 15 ∷ 1 ∷ 0xC5 ∷ 0xFF ∷ 0xFF ∷ 0xFF ∷ 0xFF ∷ (replicate 16 0 ++ replicate 16 0xFF))

abbrev entry : FirmwareEntry
entry = record {
  role = 114 ∷ [];
  filename = 102 ∷ [];
  version = 49 ∷ [];
  label = 49 ∷ [];
  url = [];
  notes = [];
  baud_rate = 115200;
  sort_key = 0;
}

abbrev offline : Answers
offline = record {
  connected = false;
  created = true;
  size_known = true;
  claimed = true;
  serial = true;
  ready = false;
}

abbrev manager : ZigbeeFirmwareManager (List ℕ) (List ℕ)
manager = record {
  gateway = true;
  local_update_active = false;
  local_update_settling = false;
  partition = some image;
  bootloader_backdoor_dio = 15;
  bootloader_backdoor_active_high = true;
  status_sensor = true;
  progress_sensor = true;
  flash_entry = entry;
  staged_header = record no_header {
    image_size = 88;
    digest = image;
    role = 114 ∷ 0 ∷ [];
    version = 49 ∷ 0 ∷ [];
    filename = 102 ∷ 0 ∷ [];
  };
  staged_image_valid = true;
  finalize_staging_after_check = false;
  probe_result = new_probe_result;
  probe_running = false;
  probe_done = false;
  download_result = new_download_result;
  download_sha = [];
  download_running = false;
  download_done = false;
  download_phase = DownloadPhase.idle;
  staging_erase_bytes = 0;
  download_bytes = 0;
  download_total = 0;
  staged_image_sha = [];
  staged_image_sha_active = false;
  staged_image_crc = 0;
  radio_flash_serial = false;
  radio_flash_result = new_radio_flash_result;
  radio_flash_running = false;
  radio_flash_done = false;
  radio_flash_stage = RadioFlashStage.idle;
  radio_flash_progress = 0;
  published_radio_flash_stage = RadioFlashStage.idle;
  flash_state = FlashState.idle;
  flash_work_offset = 0;
  flash_image_size = 0;
  flash_image_digest = [];
  flash_image_crc = 0;
  last_flash_progress = 255;
  next_flash_progress_log = 10;
  statuses = [];
  progresses = [];
  calls = [];
}

abbrev commands : List Command
commands = updates false (some entry) offline ∷ turns [] offline ∷ turns [] offline ∷ []

-- The state in which the image has passed the check.
writes : (run read_only 88 plain_digest commands manager).flash_state ≡ FlashState.entering_bsl
unfolding run read_only plain_digest loop advance start_firmware_update start_selected start_staged
    use_staged_firmware staged_image_matches publish_flash_progress log_loop publish_status
    begin_flash_stage fail_firmware_update call_gateway begin_update flash_active
    begin_staged_image_check advance_staged_image_check accept_image validate_staged_image_size
    validate_staged_image_ccfg finalize_staging begin_radio_flash handle_staged_image_check_failure
    read_staged_bytes same_bytes is_active_state step zigbee_ti_image_size_is_compatible
    zigbee_ti_validate_ccfg zigbee_ti_parse_ccfg parsed_ccfg check_ccfg check_protection
    zigbee_ti_decode_u32_le
writes = refl

run-Verified_example :
    Verified stored (λ c. c) (λ c. c) 88 (run read_only 88 plain_digest commands manager)
unfolding is_active_state
run-Verified_example =
    run-Verified stored (λ c. c) (λ c. c) 88 read_only read_only-IsFlash plain_digest
      plain_digest-IsSha commands manager refl
      (record { no_probe = (refl, refl); no_download = (refl, refl); no_radio = (refl, refl) })
      (ap is_flashing writes)
