-- ===== src/Firmware/Passing.antt =====
-- The check of a staged image, one turn after another, and the image that passes it.
use mathlib.Core.Option.{Option, none, some}
use Prim.Native.String.{String}
use zigbee_gateway.Common.{
  ℕ, ◌+◌, ◌-◌, ◌≤◌, ◌≡◌, refl, sym, ap, ◌∙◌, arith, Bool, true, false, not, ◌||◌, List, [], ◌∷◌,
  length, take, drop, ltb, ◌==◌, if-rule, drop-drop, length-take,
}
use zigbee_gateway.Crc.Update.{zigbee_crc32}
use zigbee_gateway.Ti.Image.{
  ZigbeeTiCcfgError, no_error, zigbee_ti_ccfg_size, zigbee_ti_image_size_is_compatible,
  zigbee_ti_validate_ccfg,
}
use zigbee_gateway.Firmware.Types.{StagingHeader, Reason, staging_header_size, same_bytes}
use zigbee_gateway.Firmware.Parts.{EspPartition, IsFlash}
use zigbee_gateway.Firmware.Manager.{Answers, ZigbeeFirmwareManager, fail_firmware_update}
use zigbee_gateway.Firmware.Staging.{
  read_staged_bytes, read_at, write_staging_header, write_header_at, after_readback, new_header,
  header_bytes, header_fields, header_length,
}
use zigbee_gateway.Firmware.Checking.{
  handle_staged_image_check_failure, validate_staged_image_size, validate_staged_image_ccfg,
  judge_ccfg, is_no_error, drop_staged, finalize_staging, or_stop, radio_flash_size_bytes,
}
use zigbee_gateway.Firmware.Verified.{
  IsVerified, Quiet, content, Verified, Holds, Outcome, fail-Holds, invalidate-Quiet,
  start_download-Holds,
}

pub same_bytes→eq : (xs ys : List ℕ) → same_bytes xs ys ≡ true → xs ≡ ys
unfolding same_bytes
same_bytes→eq [] [] h = refl
same_bytes→eq [] (y ∷ ys) h = cc
same_bytes→eq (x ∷ xs) [] h = cc
same_bytes→eq (x ∷ xs) (y ∷ ys) h = ground (arith, same_bytes→eq xs ys)

is_no_error→eq : (e : ZigbeeTiCcfgError) → is_no_error e ≡ true → e ≡ no_error
is_no_error→eq no_error h = refl
is_no_error→eq ZigbeeTiCcfgError.invalid_size h = cc
is_no_error→eq ZigbeeTiCcfgError.bootloader_disabled h = cc
is_no_error→eq ZigbeeTiCcfgError.backdoor_disabled h = cc
is_no_error→eq ZigbeeTiCcfgError.backdoor_dio_mismatch h = cc
is_no_error→eq ZigbeeTiCcfgError.backdoor_level_mismatch h = cc
is_no_error→eq ZigbeeTiCcfgError.bank_erase_disabled h = cc
is_no_error→eq ZigbeeTiCcfgError.invalid_image_vector h = cc
is_no_error→eq ZigbeeTiCcfgError.flash_protected h = cc

take-fits : (n k : ℕ) (xs : List ℕ) → n ≤ k → length (take n xs) ≤ k
take-fits n k xs h = omega (arith, length-take {A = ℕ} n xs)

length-header_bytes : (h : StagingHeader) → length (header_bytes h) ≤ staging_header_size
unfolding header_bytes
length-header_bytes h = take-fits header_length staging_header_size (header_fields h) (omega arith)

module _ {C P : Type 0} (bytes : P → List ℕ) (given : C → List ℕ) (hash : List ℕ → List ℕ)
    (radio_size : ℕ) (flash : EspPartition P) (law : IsFlash flash bytes) (a : Answers) where
  -- An image that was read back, before its size and configuration are checked.
  pub record Read (m : ZigbeeFirmwareManager C P) : Type 0 where
    pub quiet : Quiet m
    pub full :
        length (take m.flash_image_size (content bytes given hash radio_size m.partition))
        ≡ m.flash_image_size
    pub digest_of :
        hash (take m.flash_image_size (content bytes given hash radio_size m.partition))
        ≡ m.flash_image_digest
    pub crc_of :
        zigbee_crc32
          (take m.flash_image_size (content bytes given hash radio_size m.partition))
          m.flash_image_size
        ≡ m.flash_image_crc

  pub record Sized (m : ZigbeeFirmwareManager C P) : Type 0 where
    pub read : Read m
    pub compatible : zigbee_ti_image_size_is_compatible m.flash_image_size radio_size ≡ true

  pub record Fit (m : ZigbeeFirmwareManager C P) : Type 0 where
    pub quiet : Quiet m
    pub verified : Verified bytes given hash radio_size m

  abbrev pub Good : ZigbeeFirmwareManager C P → Type 0
  Good m = Holds bytes given hash radio_size m

  abbrev pub Ends : (ZigbeeFirmwareManager C P → Type 0) → ZigbeeFirmwareManager C P × Bool → Type 0
  Ends K r = Outcome bytes given hash radio_size K r

  pub fail-Good :
      (reason : Reason) (m : ZigbeeFirmwareManager C P)
      → Quiet m
      → Good (fail_firmware_update reason m)
  fail-Good reason m h = fail-Holds bytes given hash radio_size reason m h

  drop_staged-Quiet :
      (m : ZigbeeFirmwareManager C P) → Quiet m → Quiet (drop_staged flash radio_size a m)
  drop_staged-Quiet m h =
      if-rule Quiet m.staged_image_valid
        (λ _. invalidate-Quiet bytes given hash radio_size flash false m h) (λ _. h)

  pub failure-Holds :
      (reason : String) (m : ZigbeeFirmwareManager C P)
      → Quiet m
      → Holds bytes given hash radio_size
          (handle_staged_image_check_failure flash radio_size a reason m)
  unfolding handle_staged_image_check_failure
  failure-Holds reason m h =
      if-rule Good m.finalize_staging_after_check
        (λ _. fail-Holds bytes given hash radio_size _ m h)
        (λ _.
          if-rule Good (not a.connected)
            (λ _.
              fail-Holds bytes given hash radio_size _ _
                (invalidate-Quiet bytes given hash radio_size flash false m h))
            (λ _. start_download-Holds bytes given hash radio_size flash a _ m h))

  pub size-rule :
      (K : ZigbeeFirmwareManager C P → Type 0) (m : ZigbeeFirmwareManager C P)
      → Quiet m
      → (zigbee_ti_image_size_is_compatible m.flash_image_size radio_size ≡ true → K m)
      → Ends K (validate_staged_image_size flash radio_size a m)
  unfolding validate_staged_image_size
  size-rule K m h k =
      if-rule (Ends K) (not m.gateway) (λ _. fail-Good _ m h)
        (λ _.
          if-rule (Ends K) (radio_flash_size_bytes radio_size a == 0) (λ _. fail-Good _ m h)
            (λ known.
              if-rule (Ends K)
                (zigbee_ti_image_size_is_compatible m.flash_image_size
                  (radio_flash_size_bytes radio_size a))
                (λ e. k (size_answer m.flash_image_size known e))
                (λ _. fail-Good _ _ (drop_staged-Quiet m h))))
    where
      size_answer :
          (n : ℕ)
          → (radio_flash_size_bytes radio_size a == 0) ≡ false
          → zigbee_ti_image_size_is_compatible n (radio_flash_size_bytes radio_size a) ≡ true
          → zigbee_ti_image_size_is_compatible n radio_size ≡ true
      size_answer n known e = ground arith

  read_at-bytes :
      (o : Option P) (offset n : ℕ) (out : List ℕ)
      → read_at flash o (staging_header_size + offset) n ≡ some out
      → (out ≡ take n (drop offset (content bytes given hash radio_size o))) × (length out ≡ n)
  read_at-bytes none offset n out e = cc
  read_at-bytes (some p) offset n out e =
      let (same, long) = law.read_bytes p (staging_header_size + offset) n out e in
      (
        same
            ∙ ap (λ (xs : List ℕ). take n xs)
                (sym (drop-drop staging_header_size offset (bytes p))),
        long,
      )

  -- What `read_staged_bytes_` reads lies in the image.
  pub read_staged-bytes :
      (m : ZigbeeFirmwareManager C P) (offset n : ℕ) (out : List ℕ)
      → read_staged_bytes flash m offset n ≡ some out
      → (out ≡ take n (drop offset (content bytes given hash radio_size m.partition)))
        × (length out ≡ n)
        × (offset + n ≤ m.flash_image_size)
  unfolding read_staged_bytes
  read_staged-bytes m offset n out =
      if-rule
        (λ (o : Option (List ℕ)).
          o ≡ some out
          → (out ≡ take n (drop offset (content bytes given hash radio_size m.partition)))
            × (length out ≡ n)
            × (offset + n ≤ m.flash_image_size))
        (ltb m.flash_image_size (offset + n) || ltb flash.size (staging_header_size + offset + n))
        (λ _ e. cc)
        (λ inside e.
          let (same, size) = read_at-bytes m.partition offset n out e in (same, size, ground arith))

  judge-Ends :
      (o : Option (List ℕ)) (m : ZigbeeFirmwareManager C P)
      → Sized m
      → ((tail : List ℕ)
          → o ≡ some tail
          → tail
            ≡ take zigbee_ti_ccfg_size (
                drop
                  (m.flash_image_size - zigbee_ti_ccfg_size)
                  (content bytes given hash radio_size m.partition)))
      → Ends Fit (judge_ccfg flash radio_size a o m)
  judge-Ends none m h k = failure-Holds _ m h.read.quiet
  judge-Ends (some tail) m h k =
      if-rule (Ends Fit)
        (is_no_error
          (zigbee_ti_validate_ccfg (some tail) zigbee_ti_ccfg_size m.bootloader_backdoor_dio
            m.bootloader_backdoor_active_high 0).0)
        (λ e. record {
          quiet = h.read.quiet;
          verified = record {
            full = h.read.full;
            digest_of = h.read.digest_of;
            crc_of = h.read.crc_of;
            compatible = h.compatible;
            ccfg = rw (← k tail refl) (is_no_error→eq _ e);
          };
        })
        (λ _. fail-Good _ _ (drop_staged-Quiet m h.read.quiet))

  pub ccfg-Ends :
      (m : ZigbeeFirmwareManager C P)
      → Sized m
      → Ends Fit (validate_staged_image_ccfg flash radio_size a m)
  unfolding validate_staged_image_ccfg
  ccfg-Ends m h = judge-Ends _ m h (
      if-rule
        (λ (o : Option (List ℕ)).
          (tail : List ℕ)
          → o ≡ some tail
          → tail
            ≡ take zigbee_ti_ccfg_size (
                drop (m.flash_image_size - zigbee_ti_ccfg_size)
                  (content bytes given hash radio_size m.partition)))
        (ltb m.flash_image_size zigbee_ti_ccfg_size) (λ _ tail e. cc)
        (λ _ tail e. (read_staged-bytes m _ _ tail e).0))

  -- A manager that is fit, but for the partition, which is `o`.
  record FitAt (o : Option P) (m : ZigbeeFirmwareManager C P) : Type 0 where
    quiet : Quiet m
    verified :
        IsVerified hash radio_size
          (content bytes given hash radio_size o)
          m.flash_image_digest
          m.flash_image_size
          m.flash_image_crc
          m.bootloader_backdoor_dio
          m.bootloader_backdoor_active_high

  readback-Ends :
      (reason : Reason) (header : StagingHeader) (m : ZigbeeFirmwareManager C P)
      (o : Option (List ℕ))
      → Fit m
      → Ends Fit (or_stop reason (after_readback header m o))
  readback-Ends reason header m none h = fail-Good reason m h.quiet
  readback-Ends reason header m (some readback) h =
      if-rule (λ (r : ZigbeeFirmwareManager C P × Bool). Ends Fit (or_stop reason r))
        (not (same_bytes (header_bytes header) readback)) (λ _. fail-Good reason m h.quiet)
        (λ _. record {
          quiet = record {
            no_probe = h.quiet.no_probe;
            no_download = h.quiet.no_download;
            no_radio = h.quiet.no_radio;
          };
          verified = h.verified;
        })

  written-Ends :
      (reason : Reason) (header : StagingHeader) (o : Option P) (m : ZigbeeFirmwareManager C P)
      → FitAt o m
      → Ends Fit (or_stop reason (write_header_at flash header o m))
  written-Ends reason header none m h = fail-Good reason m h.quiet
  written-Ends reason header (some p) m h =
      let out = flash.write p 0 (header_bytes header) in
      let quiet : Quiet (record m { partition = some out.1 }) = record {
        no_probe = h.quiet.no_probe;
        no_download = h.quiet.no_download;
        no_radio = h.quiet.no_radio;
      } in
      if-rule (λ (r : ZigbeeFirmwareManager C P × Bool). Ends Fit (or_stop reason r))
        (not (out.0 == 0)) (λ _. fail-Good reason _ quiet)
        (λ _. readback-Ends reason header _ (flash.read out.1 0 header_length) (record {
          quiet = quiet;
          verified =
              rw (law.write_header p (header_bytes header) (length-header_bytes header)) h.verified;
        }))

  pub finalize-Ends :
      (m : ZigbeeFirmwareManager C P) → Fit m → Ends Fit (finalize_staging flash radio_size a m)
  unfolding finalize_staging write_staging_header
  finalize-Ends m h =
      if-rule (Ends Fit) m.finalize_staging_after_check
        (λ _.
          written-Ends _ (new_header m) m.partition m
            (record { quiet = h.quiet; verified = h.verified }))
        (λ _. h)
