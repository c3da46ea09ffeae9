-- ===== src/Firmware/Radio.antt =====
-- `radio_flash_task_`: the image is written to the radio by the commands of its ROM bootloader.
use mathlib.Core.Option.{Option, none, some}
use zigbee_gateway.Common.{
  ℕ, zero, suc, ◌+◌, ◌-◌, min, bit_xor, true, not, List, ◌==◌, ltb, if◌then◌else◌,
}
use zigbee_gateway.Crc.Update.{zigbee_crc32_update}
use zigbee_gateway.Link.Port.{Port, M, ◌>>=◌, pure}
use zigbee_gateway.Link.Loader.{bsl_sync}
use zigbee_gateway.Link.Commands.{
  Timing, bsl_bank_erase, bsl_download_crc, bsl_send_data, bsl_reset,
}
use zigbee_gateway.Firmware.Types.{
  RadioFlashError, no_error, bsl_sync_failed, bank_erase_failed, download_failed,
  staging_read_failed, send_data_failed, staging_crc_mismatch, RadioFlashResult, write_block_size,
}
use zigbee_gateway.Firmware.Update.{new_radio_flash_result}

-- The timeouts of a command, by that of its acknowledgement.
abbrev pub radio_timing : ℕ → ℕ → Timing
radio_timing fuel command_ack_timeout_ms = record {
  fuel = fuel;
  command_ack_timeout_ms = command_ack_timeout_ms;
  status_ack_timeout_ms = 250;
  header_timeout_ms = 250;
  payload_timeout_ms = 250;
}

-- The ROM status that a command leaves in the variable of the caller.
abbrev pub rom_status_of : ℕ → Option ℕ → ℕ
rom_status_of before none = before
rom_status_of before (some status) = status

-- The end of the task.
abbrev pub ended_with : RadioFlashError → ℕ → ℕ → RadioFlashResult → RadioFlashResult
ended_with error rom_status offset r = record r {
  error = error;
  rom_status = rom_status;
  offset = offset;
}

-- How the loop ends: with an error, the ROM status and the offset, or with the CRC of what was sent.
pub data Written : Type 0 where
  stopped : RadioFlashError → ℕ → ℕ → Written
  sent : ℕ → Written

module _ {W : Type 0} (port : Port W) (fuel : ℕ) (read : ℕ → ℕ → Option (List ℕ)) (size : ℕ) where
  -- A block that was read, or was not; `rest` goes on behind it.
  abbrev pub send_block : (ℕ → ℕ → M W Written) → ℕ → ℕ → ℕ → ℕ → Option (List ℕ) → M W Written
  send_block rest rom_status crc offset count none = pure (stopped staging_read_failed 0 offset)
  send_block rest rom_status crc offset count (some buffer) = do
    done ←
        bsl_send_data port (radio_timing fuel (if offset + count == size then 15000 else 5000))
          (some buffer) count
    if not done.0
        then pure (stopped send_data_failed (rom_status_of rom_status done.1) offset)
        else rest (rom_status_of rom_status done.1) (zigbee_crc32_update crc buffer count)

  -- The loop over the blocks. A block has a byte at least, so `size` rounds are enough.
  unfoldable pub write_loop : ℕ → ℕ → ℕ → ℕ → M W Written
  unfolding bsl_send_data
  write_loop zero rom_status crc offset = pure (sent crc)
  write_loop (suc rounds) rom_status crc offset =
      let count = min write_block_size (size - offset) in
      let next =
        send_block (λ status sum. write_loop rounds status sum (offset + count)) rom_status crc
          offset count (read offset count) in
      if ltb offset size then next else pure (sent crc)

  -- What follows the last block.
  abbrev pub after_writing : ℕ → RadioFlashResult → Written → M W RadioFlashResult
  after_writing crc r (stopped error status offset) = pure (ended_with error status offset r)
  after_writing crc r (sent sum) =
      let local = record r { local_crc = bit_xor sum 0xFFFFFFFF } in
      if not (local.local_crc == crc)
      then pure (ended_with staging_crc_mismatch 0 size local)
      else do
        acknowledged ← bsl_reset port fuel 1000
        pure (
            ended_with no_error 0 size
              (record local { verified_crc = crc; bootloader_reset_acknowledged = acknowledged }))

  -- The task, for the image's CRC.
  unfoldable pub radio_flash_task : ℕ → M W RadioFlashResult
  unfolding write_loop
  radio_flash_task crc = do
    synced ← bsl_sync port fuel 1000
    if not synced then pure (ended_with bsl_sync_failed 0 0 new_radio_flash_result) else do
      erased ← bsl_bank_erase port (radio_timing fuel 15000)
      if not erased.0
          then pure
              (ended_with bank_erase_failed (rom_status_of 0 erased.1) 0 new_radio_flash_result)
          else do
            begun ← bsl_download_crc port (radio_timing fuel 2000) 0 size crc
            let r = record new_radio_flash_result { bank_erased = true }
            let status = rom_status_of (rom_status_of 0 erased.1) begun.1
            if not begun.0
                then pure (ended_with download_failed status 0 r)
                else do written ← write_loop size status 0xFFFFFFFF 0; after_writing crc r written
