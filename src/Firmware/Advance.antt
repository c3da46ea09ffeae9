-- ===== src/Firmware/Advance.antt =====
-- A turn of the check keeps what holds of the manager.
use mathlib.Core.Option.{Option, none, some}
use zigbee_gateway.Common.{
  ℕ, ◌+◌, ◌-◌, ◌≤◌, ◌≡◌, refl, sym, ap, ◌∙◌, arith, Bool, true, false, not, List, ◌++◌, length,
  take, drop, min, bit_xor, leb, if-rule, take-split, take-take, take-length, length-append,
}
use zigbee_gateway.Crc.Update.{zigbee_crc32, zigbee_crc32_update, crc_bytes, crc_bytes-append}
use zigbee_gateway.Firmware.Types.{
  FlashState, checking_download, begin_local_firmware_update, same_bytes, staging_io_block_size,
}
use zigbee_gateway.Firmware.Parts.{EspPartition, IsFlash, Sha256, IsSha}
use zigbee_gateway.Firmware.Manager.{
  Answers, ZigbeeFirmwareManager, begin_flash_stage, begin_update, publish_flash_progress,
  call_gateway,
}
use zigbee_gateway.Firmware.Staging.{read_staged_bytes}
use zigbee_gateway.Firmware.Checking.{
  after_claim, begin_radio_flash, accept_image, compare_digest, check_block,
  advance_staged_image_check, validate_staged_image_size, validate_staged_image_ccfg,
  finalize_staging,
}
use zigbee_gateway.Firmware.Verified.{Quiet, Checked, content, Phase, on_success-Holds}
use zigbee_gateway.Firmware.Passing.{
  Good, Read, Sized, Fit, same_bytes→eq, fail-Good, size-rule, failure-Holds, read_staged-bytes,
  ccfg-Ends, finalize-Ends,
}

module _ {C P : Type 0} (bytes : P → List ℕ) (given : C → List ℕ) (hash : List ℕ → List ℕ)
    (radio_size : ℕ) (flash : EspPartition P) (law : IsFlash flash bytes) (a : Answers) where
  claimed-Good :
      (m : ZigbeeFirmwareManager C P)
      → Fit bytes given hash radio_size flash law a m
      → Good bytes given hash radio_size flash law a
          (after_claim flash radio_size a (begin_update a.claimed m))
  unfolding begin_update begin_flash_stage call_gateway
  claimed-Good m h =
      let quiet : Quiet (call_gateway begin_local_firmware_update m) = record {
        no_probe = h.quiet.no_probe;
        no_download = h.quiet.no_download;
        no_radio = h.quiet.no_radio;
      } in
      let refused = fail-Good bytes given hash radio_size flash law a _ _ quiet in
      let Ok : ZigbeeFirmwareManager C P × Bool → Type 0 =
        λ r. Good bytes given hash radio_size flash law a (after_claim flash radio_size a r) in
      if-rule Ok m.local_update_active (λ _. refused)
        (λ _.
          if-rule Ok (not a.claimed) (λ _. refused)
            (λ _. (
              h.quiet.no_probe,
              h.quiet.no_download,
              record { held = ground arith; apart = ground arith },
              h.verified,
            )))

  begin_radio-Good :
      (m : ZigbeeFirmwareManager C P)
      → Fit bytes given hash radio_size flash law a m
      → Good bytes given hash radio_size flash law a (begin_radio_flash flash radio_size a m)
  unfolding begin_radio_flash
  begin_radio-Good m h =
      on_success-Holds bytes given hash radio_size (Fit bytes given hash radio_size flash law a) _
        (validate_staged_image_size flash radio_size a m)
        (size-rule bytes given hash radio_size flash law a
          (Fit bytes given hash radio_size flash law a) m h.quiet (λ _. h))
        claimed-Good

  progress-Fit :
      (m : ZigbeeFirmwareManager C P) (value : ℕ)
      → Fit bytes given hash radio_size flash law a m
      → Fit bytes given hash radio_size flash law a (publish_flash_progress value m)
  unfolding publish_flash_progress
  progress-Fit m value h = record {
    quiet = record {
      no_probe = h.quiet.no_probe;
      no_download = h.quiet.no_download;
      no_radio = h.quiet.no_radio;
    };
    verified = h.verified;
  }

  -- The check has read all of the image, and its digest is the expected one.
  accept-Good :
      (m : ZigbeeFirmwareManager C P)
      → Quiet m
      → Checked bytes given hash radio_size m
      → m.flash_image_size ≤ m.flash_work_offset
      → hash (given m.staged_image_sha) ≡ m.flash_image_digest
      → Good bytes given hash radio_size flash law a (accept_image flash radio_size a m)
  unfolding accept_image zigbee_crc32 zigbee_crc32_update
  accept-Good m q c over e =
      let m' = record m { flash_image_crc = bit_xor m.staged_image_crc 0xFFFFFFFF } in
      let end : m.flash_work_offset ≡ m.flash_image_size = omega (arith, c.within) in
      let stored = content bytes given hash radio_size m.partition in
      let whole : take m.flash_work_offset stored ≡ take m.flash_image_size stored =
        ap (λ (n : ℕ). take n stored) end in
      let quiet : Quiet m' = record {
        no_probe = q.no_probe;
        no_download = q.no_download;
        no_radio = q.no_radio;
      } in
      let read : Read bytes given hash radio_size flash law a m' = record {
        quiet = quiet;
        full = ap length (sym whole) ∙ (c.read ∙ end);
        digest_of = ap hash (sym (c.hashed ∙ whole)) ∙ e;
        crc_of =
            ap (λ (x : ℕ). bit_xor x 0xFFFFFFFF)
              (ap (λ (xs : List ℕ). crc_bytes 0xFFFFFFFF xs)
                  (take-take m.flash_image_size m.flash_image_size stored (omega arith))
                ∙ sym (c.summed ∙ ap (λ (xs : List ℕ). crc_bytes 0xFFFFFFFF xs) whole));
      } in
      on_success-Holds bytes given hash radio_size (Sized bytes given hash radio_size flash law a) _
        (validate_staged_image_size flash radio_size a m')
        (size-rule bytes given hash radio_size flash law a
          (Sized bytes given hash radio_size flash law a) m' quiet
          (λ fits. record { read = read; compatible = fits }))
        (λ m sized.
          on_success-Holds bytes given hash radio_size (Fit bytes given hash radio_size flash law a)
            _ (validate_staged_image_ccfg flash radio_size a m)
            (ccfg-Ends bytes given hash radio_size flash law a m sized)
            (λ m fit.
              on_success-Holds bytes given hash radio_size
                (Fit bytes given hash radio_size flash law a) _
                (finalize_staging flash radio_size a m)
                (finalize-Ends bytes given hash radio_size flash law a m fit)
                (λ m fit. begin_radio-Good _ (progress-Fit m 35 fit))))

  compare-Good :
      (r : Bool × List ℕ) (m : ZigbeeFirmwareManager C P)
      → Quiet m
      → Checked bytes given hash radio_size m
      → m.flash_image_size ≤ m.flash_work_offset
      → (r.0 ≡ true → r.1 ≡ hash (given m.staged_image_sha))
      → Good bytes given hash radio_size flash law a (compare_digest flash radio_size a r m)
  compare-Good (false, readback) m q c over e =
      fail-Good bytes given hash radio_size flash law a _ m q
  compare-Good (true, readback) m q c over e =
      if-rule (Good bytes given hash radio_size flash law a)
        (not (same_bytes readback m.flash_image_digest))
        (λ _. failure-Holds bytes given hash radio_size flash law a _ m q)
        (λ same.
          accept-Good m q c over
            (sym (e refl) ∙ same_bytes→eq readback m.flash_image_digest (ground arith)))

  abbrev pub at_state :
      {s t : FlashState} (m : ZigbeeFirmwareManager C P)
      → s ≡ t
      → Phase bytes given hash radio_size t m
      → Phase bytes given hash radio_size s m
  at_state m e h = rw e h

  block-Good :
      (sha : Sha256 C) (o : Option (List ℕ)) (m : ZigbeeFirmwareManager C P) (count : ℕ)
      → IsSha sha given hash
      → m.flash_state ≡ checking_download
      → Quiet m
      → Checked bytes given hash radio_size m
      → ((block : List ℕ)
          → o ≡ some block
          → (block
              ≡ take count
                  (drop m.flash_work_offset (content bytes given hash radio_size m.partition)))
            × (length block ≡ count)
            × (m.flash_work_offset + count ≤ m.flash_image_size))
      → Good bytes given hash radio_size flash law a (check_block flash radio_size a sha count o m)
  unfolding publish_flash_progress zigbee_crc32_update
  block-Good sha none m count law' st q c k =
      failure-Holds bytes given hash radio_size flash law a _ _
        (record { no_probe = q.no_probe; no_download = q.no_download; no_radio = q.no_radio })
  block-Good sha (some block) m count law' st q c k =
      let (same, long, fits) = k block refl in
      let stored = content bytes given hash radio_size m.partition in
      let off = m.flash_work_offset in
      let longer : take (off + count) stored ≡ take off stored ++ block =
        take-split off (off + count) stored (omega arith)
        ∙ ap (λ (xs : List ℕ). take off stored ++ xs)
            (ap (λ (n : ℕ). take n (drop off stored)) (omega arith) ∙ sym same) in
      if-rule (Good bytes given hash radio_size flash law a)
        (not (sha.update m.staged_image_sha block).0)
        (λ _.
          fail-Good bytes given hash radio_size flash law a _ _
            (record { no_probe = q.no_probe; no_download = q.no_download; no_radio = q.no_radio }))
        (λ updated. at_state _ st (
          record { no_probe = q.no_probe; no_download = q.no_download; no_radio = q.no_radio },
          record {
            within = fits;
            read =
                ap length longer ∙ (length-append (take off stored) block ∙ omega (arith, c.read));
            hashed =
                law'.update_given m.staged_image_sha block (ground arith)
                ∙ (ap (λ (xs : List ℕ). xs ++ block) c.hashed ∙ sym longer);
            summed =
                ap (λ (xs : List ℕ). crc_bytes m.staged_image_crc xs)
                  (ap (λ (n : ℕ). take n block) (sym long) ∙ take-length block)
                ∙ (ap (λ (x : ℕ). crc_bytes x block) c.summed
                    ∙ (sym (crc_bytes-append 0xFFFFFFFF (take off stored) block)
                        ∙ ap (λ (xs : List ℕ). crc_bytes 0xFFFFFFFF xs) (sym longer)));
          },
        ))

  pub check-Good :
      (sha : Sha256 C) (m : ZigbeeFirmwareManager C P)
      → IsSha sha given hash
      → m.flash_state ≡ checking_download
      → Quiet m
      → Checked bytes given hash radio_size m
      → Good bytes given hash radio_size flash law a
          (advance_staged_image_check flash radio_size a sha m)
  unfolding advance_staged_image_check
  check-Good sha m law' st q c =
      if-rule (Good bytes given hash radio_size flash law a) (not m.staged_image_sha_active)
        (λ _. at_state m st (q, c))
        (λ _.
          if-rule (Good bytes given hash radio_size flash law a)
            (leb m.flash_image_size m.flash_work_offset)
            (λ over.
              compare-Good (sha.finish m.staged_image_sha) _
                (record {
                  no_probe = q.no_probe;
                  no_download = q.no_download;
                  no_radio = q.no_radio;
                })
                (record { within = c.within; read = c.read; hashed = c.hashed; summed = c.summed })
                (ground arith) (λ ok. law'.finish_hash m.staged_image_sha ok))
            (λ more.
              let count = min staging_io_block_size (m.flash_image_size - m.flash_work_offset) in
              block-Good sha (read_staged_bytes flash m m.flash_work_offset count) m count law' st q
                c
                (λ block e.
                  read_staged-bytes bytes given hash radio_size flash law a m m.flash_work_offset
                    count block e)))
