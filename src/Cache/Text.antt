-- ===== src/Cache/Text.antt =====
-- The bounded texts of zigbee_metadata_cache.h. A C string is the list of its bytes in front of the
-- terminator, none of which is 0.
use mathlib.Core.Option.{Option, none, some}
use zigbee_gateway.Common.{
  ℕ, zero, suc, ◌-◌, ◌<◌, ◌≡◌, ◌≢◌, ◌↔◌, refl, arith, Bool, true, false, ◌||◌, List, [], ◌∷◌, ◌++◌,
  leb, ◌==◌, if◌then◌else◌, length, replicate, All, Bool-cases, inl, inr, length-append,
  length-replicate, ne→==,
}

-- `memchr(value, '\0', N) != nullptr`
unfoldable pub zigbee_cache_text_is_terminated : List ℕ → Bool
zigbee_cache_text_is_terminated [] = false
zigbee_cache_text_is_terminated (b ∷ bs) = b == 0 || zigbee_cache_text_is_terminated bs

-- The array of `n` bytes after the call, and the result. The source is `none` for a null pointer.
unfoldable pub copy_zigbee_cache_text : ℕ → Option (List ℕ) → List ℕ × Bool
copy_zigbee_cache_text n none = (replicate n 0, false)
copy_zigbee_cache_text n (some source) =
    if length source == 0 || leb n (length source)
    then (replicate n 0, false)
    else (source ++ replicate (n - length source) 0, true)

-- The C string that an array holds.
abbrev pub c_string : List ℕ → List ℕ
c_string [] = []
c_string (b ∷ bs) = let rest = c_string bs in if b == 0 then [] else b ∷ rest

abbrev pub IsText : List ℕ → Type 0
IsText text = All (λ b. b ≢ 0) text

c_string-zeros : (n : ℕ) → c_string (replicate n 0) ≡ []
c_string-zeros zero = refl
c_string-zeros (suc n) = refl

c_string-padded : (text : List ℕ) (n : ℕ) → IsText text → c_string (text ++ replicate n 0) ≡ text
c_string-padded [] n h = c_string-zeros n
c_string-padded (b ∷ bs) n h = rw (ne→== b 0 h.0, c_string-padded bs n h.1) refl

terminated-zeros : (n : ℕ) → n ≢ 0 → zigbee_cache_text_is_terminated (replicate n 0) ≡ true
unfolding zigbee_cache_text_is_terminated
terminated-zeros zero h = absurd (h refl)
terminated-zeros (suc n) h = refl

terminated-padded :
    (text : List ℕ) (n : ℕ) → n ≢ 0 → zigbee_cache_text_is_terminated (text ++ replicate n 0) ≡ true
unfolding zigbee_cache_text_is_terminated
terminated-padded [] n h = terminated-zeros n h
terminated-padded (b ∷ bs) n h = ground (arith, terminated-padded bs n h)

-- A copy keeps the array's size and leaves it terminated. It succeeds exactly for a text that is
-- neither empty nor as long as the array, which is then what the array holds; after a refusal the
-- array holds the empty text.
pub copy_text_lem :
    (n : ℕ) (source : List ℕ)
    → n ≢ 0
    → IsText source
    → let (array, copied) = copy_zigbee_cache_text n (some source) in
      (length array ≡ n)
      × (zigbee_cache_text_is_terminated array ≡ true)
      × ((copied ≡ true) ↔ ((length source ≢ 0) × (length source < n)))
      × (c_string array ≡ (if copied then source else []))
unfolding copy_zigbee_cache_text
copy_text_lem n source h text = elim (Bool-cases (length source == 0 || leb n (length source))) [
  | inl refused ↦
      rw refused
        (length-replicate {A = ℕ} n 0, terminated-zeros n h, ground arith, c_string-zeros n)
  | inr copied ↦ rw copied (
    ground (
      arith,
      length-append source (replicate (n - length source) 0),
      length-replicate {A = ℕ} (n - length source) 0,
    ),
    terminated-padded source (n - length source) (ground arith),
    ground arith,
    c_string-padded source (n - length source) text,
  )
]

-- Every copy, also from a null pointer, is terminated.
pub copy_text-terminated :
    (n : ℕ) (source : Option (List ℕ))
    → n ≢ 0
    → zigbee_cache_text_is_terminated (copy_zigbee_cache_text n source).0 ≡ true
unfolding copy_zigbee_cache_text
copy_text-terminated n none h = terminated-zeros n h
copy_text-terminated n (some source) h =
    ground (arith, terminated-zeros n h, terminated-padded source (n - length source))
