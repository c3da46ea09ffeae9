-- ===== src/Link/Memory.antt =====
-- The memory reads of protocol.h: `bsl_mem_read`, `bsl_read_words` and `bsl_read_bytes`. A result
-- holds the bytes that the caller's buffer is given, when the read succeeds.
use mathlib.Core.Option.{Option, none, some}
use zigbee_gateway.Common.{
  ℕ, zero, suc, ◌+◌, ◌-◌, ◌*◌, ◌%◌, ◌/◌, ◌^◌, min, bit_and, List, [], ◌∷◌, ◌++◌, ltb, if◌then◌else◌,
  u8, length, take, drop,
}
use zigbee_gateway.Bsl.Words.{zigbee_bsl_encode_u32_be}
use zigbee_gateway.Bsl.Frame.{checksum}
use zigbee_gateway.Link.Port.{Port, M, ◌>>=◌, pure}
use zigbee_gateway.Link.Loader.{bsl_exec}

-- The timeouts of a read, in milliseconds, and the fuel of its waits.
pub record ReadTiming : Type 0 where
  pub fuel : ℕ
  pub ack_timeout_ms : ℕ
  pub header_timeout_ms : ℕ
  pub payload_timeout_ms : ℕ

-- The data of MEM_READ.
abbrev pub mem_read_data : ℕ → ℕ → ℕ → List ℕ
mem_read_data addr access_type count =
    0x2A ∷ zigbee_bsl_encode_u32_be addr ++ (access_type ∷ count ∷ [])

-- The command: its size, the checksum and the data.
unfoldable pub mem_read_command : ℕ → ℕ → ℕ → List ℕ
unfolding checksum
mem_read_command addr access_type count =
    let data' = mem_read_data addr access_type count in
    u8 (length data' + 2) ∷ u8 (bit_and (checksum 0 data') 0xFF) ∷ data'

-- What is copied to the buffer.
abbrev pub copied : ℕ → Option (List ℕ) → Option (List ℕ)
copied out_capacity none = none
copied out_capacity (some payload) = some (take (min (length payload) out_capacity) payload)

-- A read that fell short fails.
abbrev pub if_whole : ℕ → Option (List ℕ) → Option (List ℕ)
if_whole wanted none = none
if_whole wanted (some bytes) = if ltb (length bytes) wanted then none else some bytes

abbrev pub chunk_max : ℕ
chunk_max = 248

abbrev pub word_max : ℕ
word_max = 63

-- The bytes that a round asks for: they lie behind the first `prefix` bytes of a word.
unfoldable pub chunk_size : ℕ → ℕ → ℕ
chunk_size prefix need = min need (min (word_max * 4 - prefix) (chunk_max - prefix))

-- The words that hold `total` bytes.
unfoldable pub chunk_words : ℕ → ℕ
chunk_words total =
    let words = u8 ((total + 3) / 4) in if ltb word_max words then word_max else words

module _ {W : Type 0} (port : Port W) where
  unfoldable pub bsl_mem_read : ReadTiming → ℕ → ℕ → ℕ → ℕ → ℕ → M W (Option (List ℕ))
  unfolding mem_read_command
  bsl_mem_read t attempts addr access_type count out_capacity = do
    reply ←
        bsl_exec port attempts t.fuel (mem_read_command addr access_type count) out_capacity
          t.ack_timeout_ms t.header_timeout_ms t.payload_timeout_ms
    pure (copied out_capacity reply)

  unfoldable pub bsl_read_words : ReadTiming → ℕ → ℕ → M W (Option (List ℕ))
  unfolding bsl_mem_read
  bsl_read_words t addr words = do
    out ← bsl_mem_read t 1 addr 1 words (u8 (words * 4))
    pure (if_whole (u8 (words * 4)) out)

  -- The bytes of a round in front of those of the rounds that follow.
  abbrev pub put_chunk : List ℕ → Option (List ℕ) × W → Option (List ℕ) × W
  put_chunk chunk (none, w) = (none, w)
  put_chunk chunk (some bytes, w) = (some (chunk ++ bytes), w)

  abbrev pub after_chunk : ℕ → ℕ → M W (Option (List ℕ)) → Option (List ℕ) → M W (Option (List ℕ))
  after_chunk prefix size rest none w = (none, w)
  after_chunk prefix size rest (some tmp) w = put_chunk (take size (drop prefix tmp)) (rest w)

  -- The loop of `bsl_read_bytes`, at the address `cur_addr` with `need` bytes to go. A round reads
  -- at least one of them, so `need` rounds are enough.
  unfoldable pub bytes_loop : ℕ → ReadTiming → ℕ → ℕ → M W (Option (List ℕ))
  unfolding bsl_mem_read chunk_size chunk_words
  bytes_loop fuel t cur_addr zero w = (some [], w)
  bytes_loop zero t cur_addr (suc left) w = (none, w)
  bytes_loop (suc fuel) t cur_addr (suc left) w =
      let prefix = cur_addr % 4 in
      let size = chunk_size prefix (suc left) in
      let words = chunk_words (prefix + size) in
      let r = bsl_mem_read t 1 (cur_addr - prefix) 1 words (u8 (words * 4)) w in
      after_chunk prefix size (bytes_loop fuel t ((cur_addr + size) % 2 ^ 32) (suc left - size))
        (if_whole (words * 4) r.0) r.1

  unfoldable pub bsl_read_bytes : ReadTiming → ℕ → ℕ → M W (Option (List ℕ))
  unfolding bytes_loop
  bsl_read_bytes t addr n = bytes_loop n t addr n
