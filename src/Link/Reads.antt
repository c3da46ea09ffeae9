-- ===== src/Link/Reads.antt =====
-- The lengths of the memory reads of protocol.h: `bsl_read_bytes`.
use mathlib.Core.Option.{Option, none, some}
use zigbee_gateway.Common.{
  ℕ, zero, suc, ◌+◌, ◌-◌, ◌*◌, ◌%◌, ◌^◌, ◌≤◌, ◌<◌, ◌≡◌, refl, arith, List, length, take, drop,
  length-take, length-drop, length-append,
}
use zigbee_gateway.Link.Port.{Port, M}
use zigbee_gateway.Link.Memory.{
  if_whole, chunk_size, chunk_words, put_chunk, after_chunk, ReadTiming, bsl_mem_read, bytes_loop,
  bsl_read_bytes,
}

if_whole-length :
    (wanted : ℕ) (read : Option (List ℕ)) (out : List ℕ)
    → if_whole wanted read ≡ some out
    → wanted ≤ length out
if_whole-length wanted none out e = cc
if_whole-length wanted (some bytes) out e = ground arith

-- The words of a chunk hold it, and fit the buffer of 248 bytes, for a prefix below 4.
chunk_fits :
    (prefix need : ℕ)
    → prefix < 4
    → (prefix + chunk_size prefix need ≤ chunk_words (prefix + chunk_size prefix need) * 4)
      × (chunk_words (prefix + chunk_size prefix need) * 4 ≤ 248)
unfolding chunk_size chunk_words
chunk_fits prefix need h = ground arith

chunk_size-least : (prefix need : ℕ) → chunk_size prefix need ≤ need
unfolding chunk_size
chunk_size-least prefix need = omega arith

module _ {W : Type 0} (port : Port W) where
  put_chunk-length :
      (chunk : List ℕ) (r : Option (List ℕ) × W) (left : ℕ) (out : List ℕ)
      → ((bytes : List ℕ) → r.0 ≡ some bytes → length bytes ≡ left)
      → (put_chunk port chunk r).0 ≡ some out
      → length out ≡ length chunk + left
  put_chunk-length chunk (none, w) left out h e = cc
  put_chunk-length chunk (some bytes, w) left out h e =
      ground (arith, length-append chunk bytes, h bytes refl)

  after_chunk-length :
      (prefix size left : ℕ) (rest : M W (Option (List ℕ))) (tmp : Option (List ℕ)) (w : W)
      (out : List ℕ)
      → ((bytes : List ℕ) → tmp ≡ some bytes → prefix + size ≤ length bytes)
      → ((v : W) (bytes : List ℕ) → (rest v).0 ≡ some bytes → length bytes ≡ left)
      → (after_chunk port prefix size rest tmp w).0 ≡ some out
      → length out ≡ size + left
  after_chunk-length prefix size left rest none w out h k e = cc
  after_chunk-length prefix size left rest (some tmp) w out h k e = omega (
    arith,
    put_chunk-length (take size (drop prefix tmp)) (rest w) left out (k w) e,
    length-take size (drop prefix tmp),
    length-drop prefix tmp,
    h tmp refl,
  )

  bytes_loop-length :
      (fuel : ℕ) (t : ReadTiming) (cur_addr need : ℕ) (w : W) (out : List ℕ)
      → (bytes_loop port fuel t cur_addr need w).0 ≡ some out
      → length out ≡ need
  unfolding bytes_loop
  bytes_loop-length zero t a zero w out e = ground arith
  bytes_loop-length (suc fuel) t a zero w out e = ground arith
  bytes_loop-length zero t a (suc left) w out e = cc
  bytes_loop-length (suc fuel) t a (suc left) w out e =
      let prefix = a % 4 in
      let size = chunk_size prefix (suc left) in
      let words = chunk_words (prefix + size) in
      let r = bsl_mem_read port t 1 (a - prefix) 1 words (words * 4 % 256) w in
      omega (
        arith,
        chunk_size-least prefix (suc left),
        after_chunk-length prefix size (suc left - size)
            (bytes_loop port fuel t ((a + size) % 2 ^ 32) (suc left - size))
            (if_whole (words * 4) r.0) r.1 out
            (λ bytes h. omega (
              arith,
              if_whole-length (words * 4) r.0 bytes h,
              chunk_fits prefix (suc left) (omega arith),
            ))
            (λ v bytes h. bytes_loop-length fuel t _ _ v bytes h) e,
      )

  -- A read of `n` bytes that succeeds gives `n` bytes.
  read_bytes-length :
      (t : ReadTiming) (addr n : ℕ) (w : W) (out : List ℕ)
      → (bsl_read_bytes port t addr n w).0 ≡ some out
      → length out ≡ n
  unfolding bsl_read_bytes
  read_bytes-length t addr n w out e = bytes_loop-length n t addr n w out e
