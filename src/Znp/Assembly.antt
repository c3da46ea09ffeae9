-- ===== src/Znp/Assembly.antt =====
-- The sniffer puts together, from the bytes of the line, the frames that a peer sends.
use mathlib.Core.List.{append_assoc}
use mathlib.Core.Path.{subst}
use zigbee_gateway.Common.{
  ℕ, zero, suc, ◌+◌, ◌≤◌, ◌<◌, ◌≡◌, ◌≢◌, refl, sym, ap, ◌∙◌, arith, true, List, [], ◌∷◌, ◌++◌, leb,
  ◌==◌, if◌then◌else◌, length, take, drop, length-take, length-drop, length-append, All,
}
use zigbee_gateway.Znp.Sniffer.{
  Observed, uart_direction_rx, ZnpSnifferState, put, sniff_state, sniff_byte, sniff_all,
}

take-put :
    (i b : ℕ) (array tail : List ℕ)
    → i ≤ length array
    → take (suc i) (take i array ++ b ∷ tail) ≡ take i array ++ (b ∷ [])
take-put zero b array tail h = refl
take-put (suc i) b [] tail h = absurd (omega arith)
take-put (suc i) b (x ∷ array) tail h =
    ap (λ (t : List ℕ). x ∷ t) (take-put i b array tail (omega arith))

put-length : (i b : ℕ) (array : List ℕ) → i < length array → length (put array i b) ≡ length array
put-length i b array h = omega (
  arith,
  length-append (take i array) (b ∷ drop (i + 1) array),
  length-take i array,
  length-drop (i + 1) array,
)

-- A byte of the data is stored, and the last one ends the data.
stored : ZnpSnifferState → ℕ → ZnpSnifferState
stored s b = record s {
  payload = put s.payload s.index b;
  index = s.index + 1;
  state = if leb s.count (s.index + 1) then 5 else 4;
}

sniff_state-stored :
    (s : ZnpSnifferState) (b : ℕ)
    → s.state ≡ 4
    → length s.payload ≡ 256
    → s.index < 255
    → sniff_state s b ≡ stored s b
unfolding sniff_state stored
sniff_state-stored s b state size room = ground arith

-- The gateway with a given state of its receiving sniffer.
abbrev pub receiving : Observed → ZnpSnifferState → Observed
receiving g s = record g { rx_sniffer = s }

-- The sniffer with a whole frame but for its check byte.
pub record IsWhole (cmd0 cmd1 : ℕ) (bytes : List ℕ) (s : ZnpSnifferState) : Type 0 where
  pub at_check : s.state ≡ 5
  pub counted : s.count ≡ length bytes
  pub first : s.cmd0 ≡ cmd0
  pub second : s.cmd1 ≡ cmd1
  pub held : take (length bytes) s.payload ≡ bytes
  pub size : length s.payload ≡ 256

abbrev headed : ZnpSnifferState → ℕ → ℕ → ℕ → ZnpSnifferState
headed s len cmd0 cmd1 = record s {
  state = if len == 0 then 5 else 4;
  count = len;
  cmd0 = cmd0;
  cmd1 = cmd1;
  index = 0;
}

module _ (g : Observed) (on : g.sniffer_enabled ≡ true) where
  sniff_byte-receiving :
      (s : ZnpSnifferState) (b : ℕ)
      → s.state ≢ 5
      → sniff_byte (receiving g s) uart_direction_rx b ≡ receiving g (sniff_state s b)
  unfolding sniff_byte
  sniff_byte-receiving s b within = ground arith

  sniff_next :
      (s t : ZnpSnifferState) (b : ℕ) (more : List ℕ)
      → s.state ≢ 5
      → sniff_state s b ≡ t
      → sniff_all (receiving g s) uart_direction_rx (b ∷ more)
        ≡ sniff_all (receiving g t) uart_direction_rx more
  unfolding sniff_all
  sniff_next s t b more within e =
      ap (λ (h : Observed). sniff_all h uart_direction_rx more)
        (sniff_byte-receiving s b within ∙ ap (receiving g) e)

  -- Bytes that are no start of a frame are passed over.
  junk-ignored :
      (s : ZnpSnifferState) (junk more : List ℕ)
      → s.state ≡ 0
      → All (λ b. b ≢ 0xFE) junk
      → sniff_all (receiving g s) uart_direction_rx (junk ++ more)
        ≡ sniff_all (receiving g s) uart_direction_rx more
  junk-ignored s [] more seeking other = refl
  junk-ignored s (b ∷ junk) more seeking other =
      let kept : sniff_state s b ≡ s = unfold sniff_state in ground (arith, other.0) in
      sniff_next s s b (junk ++ more) (omega arith) kept ∙ junk-ignored s junk more seeking other.1

  header-sniffed :
      (s : ZnpSnifferState) (len cmd0 cmd1 : ℕ) (more : List ℕ)
      → s.state ≡ 0
      → sniff_all (receiving g s) uart_direction_rx (0xFE ∷ len ∷ cmd0 ∷ cmd1 ∷ more)
        ≡ sniff_all (receiving g (headed s len cmd0 cmd1)) uart_direction_rx more
  unfolding sniff_state
  header-sniffed s len cmd0 cmd1 more seeking =
      let s1 = record s { state = 1; index = 0 } in
      let s2 = record s1 { count = len; state = 2 } in
      let s3 = record s2 { cmd0 = cmd0; state = 3 } in
      sniff_next s s1 0xFE (len ∷ cmd0 ∷ cmd1 ∷ more) (omega arith) (ground arith)
      ∙ sniff_next s1 s2 len (cmd0 ∷ cmd1 ∷ more) (omega arith) refl
      ∙ sniff_next s2 s3 cmd0 (cmd1 ∷ more) (omega arith) refl
      ∙ sniff_next s3 (headed s len cmd0 cmd1) cmd1 more (omega arith) refl

  data-sniffed :
      (s : ZnpSnifferState) (held : List ℕ) (x : ℕ) (xs : List ℕ)
      → s.state ≡ 4
      → length s.payload ≡ 256
      → take s.index s.payload ≡ held
      → s.index ≡ length held
      → s.count ≡ length (held ++ x ∷ xs)
      → s.count ≤ 255
      → (t : ZnpSnifferState) × IsWhole s.cmd0 s.cmd1 (held ++ x ∷ xs) t
        × ((more : List ℕ)
            → sniff_all (receiving g s) uart_direction_rx ((x ∷ xs) ++ more)
              ≡ sniff_all (receiving g t) uart_direction_rx more)
  unfolding stored
  data-sniffed s held x [] filling size had index total fits =
      let full = length-append held (x ∷ []) in
      let step = sniff_state-stored s x filling size (omega (arith, full)) in
      (
        stored s x,
        record {
          at_check = ground (arith, full);
          counted = total;
          first = refl;
          second = refl;
          held = whole;
          size = put-length s.index x s.payload (omega (arith, full)) ∙ size;
        },
        (λ more. sniff_next s (stored s x) x more (omega arith) step),
      )
    where
      whole : take (length (held ++ x ∷ [])) (put s.payload s.index x) ≡ held ++ x ∷ []
      whole =
          let n : length (held ++ x ∷ []) ≡ suc s.index =
            omega (arith, length-append held (x ∷ [])) in
          ap (λ (k : ℕ). take k (put s.payload s.index x)) n
          ∙ take-put s.index x s.payload (drop (s.index + 1) s.payload)
              (omega (arith, length-append held (x ∷ [])))
          ∙ ap (λ (t : List ℕ). t ++ (x ∷ [])) had
  data-sniffed s held x (y ∷ ys) filling size had index total fits =
      let all : (held ++ x ∷ []) ++ y ∷ ys ≡ held ++ x ∷ y ∷ ys =
        append_assoc held (x ∷ []) (y ∷ ys) in
      let count = length-append held (x ∷ y ∷ ys) in
      let step = sniff_state-stored s x filling size (omega (arith, count)) in
      let n : s.index + 1 ≡ suc s.index = omega arith in
      let (t, w, e) =
        data-sniffed (stored s x) (held ++ x ∷ []) y ys (ground (arith, count))
          (put-length s.index x s.payload (omega (arith, count)) ∙ size)
          (ap (λ (k : ℕ). take k (put s.payload s.index x)) n
            ∙ take-put s.index x s.payload (drop (s.index + 1) s.payload) (omega (arith, count))
            ∙ ap (λ (t : List ℕ). t ++ (x ∷ [])) had)
          (omega (arith, length-append held (x ∷ [])))
          (total ∙ ap (λ (l : List ℕ). length l) (sym all)) fits in
      (
        t,
        subst (λ (l : List ℕ). IsWhole s.cmd0 s.cmd1 l t) all w,
        (λ more. sniff_next s (stored s x) x ((y ∷ ys) ++ more) (omega arith) step ∙ e more),
      )

  -- A whole frame but for its check byte, with noise in front.
  pub frame-sniffed :
      (s : ZnpSnifferState) (cmd0 cmd1 : ℕ) (noise bytes : List ℕ)
      → s.state ≡ 0
      → length s.payload ≡ 256
      → All (λ b. b ≢ 0xFE) noise
      → length bytes ≤ 255
      → (t : ZnpSnifferState) × IsWhole cmd0 cmd1 bytes t
        × ((more : List ℕ)
            → sniff_all
                (receiving g s)
                uart_direction_rx
                (noise ++ 0xFE ∷ length bytes ∷ cmd0 ∷ cmd1 ∷ (bytes ++ more))
              ≡ sniff_all (receiving g t) uart_direction_rx more)
  frame-sniffed s cmd0 cmd1 noise [] seeking size other fits = (
    headed s 0 cmd0 cmd1,
    record {
      at_check = refl;
      counted = refl;
      first = refl;
      second = refl;
      held = refl;
      size = size;
    },
    (λ more.
        junk-ignored s noise (0xFE ∷ 0 ∷ cmd0 ∷ cmd1 ∷ more) seeking other
        ∙ header-sniffed s 0 cmd0 cmd1 more seeking),
  )
  frame-sniffed s cmd0 cmd1 noise (x ∷ xs) seeking size other fits =
      let len = length (x ∷ xs) in
      let (t, w, e) =
        data-sniffed (headed s len cmd0 cmd1) [] x xs (ground arith) size refl refl refl fits in
      (
        t,
        w,
        (λ more.
            junk-ignored s noise (0xFE ∷ len ∷ cmd0 ∷ cmd1 ∷ ((x ∷ xs) ++ more)) seeking other
            ∙ header-sniffed s len cmd0 cmd1 ((x ∷ xs) ++ more) seeking
            ∙ e more),
      )
