-- ===== src/Identifier/Format.antt =====
-- internal/identifier/identifier.go: `ValidUUID` on what `NewUUID` returns.
use p3_relay.Prelude.{
  ℕ, zero, suc, ◌+◌, ◌*◌, ◌/◌, ◌%◌, ◌≤◌, ◌<◌, ◌≡◌, refl, true, ◌&&◌, false, some, List, [], ◌∷◌,
  ◌++◌, Bytes, All, arith, length, take, drop, length-take, length-drop, All-take, All-drop,
  &&-intro, ap, subst, length-append, ◌==◌, ◌∙◌, holds_below, holds_below_at, ltb, ltb→lt,
}
use mathlib.Core.List.{append-nil}
use p3_relay.Errors.{ok, ok-injective}
use p3_relay.Hex.{hex_encode}
use p3_relay.Hex.Laws.{IsByte, length-hex_encode, is_hex_lower, hex_digit-is_hex_lower}
use p3_relay.Identifier.{
  update_at, version_byte, variant_byte, is_dash_index, hex_slice, format_uuid, new_uuid,
  valid_character, valid_from, valid_uuid,
}

version_byte_table : holds_below (λ b. ltb (version_byte b) 256) 256 ≡ true
unfolding holds_below
version_byte_table = refl

variant_byte_table : holds_below (λ b. ltb (variant_byte b) 256) 256 ≡ true
unfolding holds_below
variant_byte_table = refl

version_byte-IsByte : (b : ℕ) → b < 256 → version_byte b < 256
version_byte-IsByte b h = ltb→lt _ 256 (holds_below_at _ 256 b h version_byte_table)

variant_byte-IsByte : (b : ℕ) → b < 256 → variant_byte b < 256
variant_byte-IsByte b h = ltb→lt _ 256 (holds_below_at _ 256 b h variant_byte_table)

length-update_at : (xs : List ℕ) (i : ℕ) (f : ℕ → ℕ) → length (update_at xs i f) ≡ length xs
length-update_at [] i f = refl
length-update_at (x ∷ xs) zero f = refl
length-update_at (x ∷ xs) (suc i) f = ap suc (length-update_at xs i f)

All-update_at :
    (xs : List ℕ) (i : ℕ) (f : ℕ → ℕ)
    → ((b : ℕ) → IsByte b → IsByte (f b))
    → All IsByte xs
    → All IsByte (update_at xs i f)
All-update_at [] i f keep h = tt
All-update_at (x ∷ xs) zero f keep h = (keep x h.0, h.1)
All-update_at (x ∷ xs) (suc i) f keep h = (h.0, All-update_at xs i f keep h.1)

-- No index from `first` up to `last` is that of a dash.
abbrev NoDash : ℕ → ℕ → Type 0
NoDash first last = (j : ℕ) → first ≤ j → j < last → is_dash_index j ≡ false

digit_ok :
    (index c : ℕ)
    → is_dash_index index ≡ false
    → is_hex_lower c ≡ true
    → valid_character index c ≡ true
digit_ok index c h k = rw h k

-- A run of digits is valid where the rest behind it is.
valid_from-digits :
    (index : ℕ) (bs rest : Bytes)
    → NoDash index (index + 2 * length bs)
    → All IsByte bs
    → valid_from (index + 2 * length bs) rest ≡ true
    → valid_from index (hex_encode bs ++ rest) ≡ true
unfolding valid_from hex_encode
valid_from-digits index [] rest clear h tail =
    subst (λ n. valid_from n rest ≡ true) (omega arith) tail
valid_from-digits index (b ∷ bs) rest clear h tail =
    &&-intro
      (digit_ok index _ (clear index (omega arith) (omega arith))
        (hex_digit-is_hex_lower (b / 16) (omega arith)))
      (&&-intro
        (digit_ok (index + 1) _ (clear (index + 1) (omega arith) (omega arith))
          (hex_digit-is_hex_lower (b % 16) (omega arith)))
        (valid_from-digits (index + 1 + 1) bs rest (λ j lo hi. clear j (omega arith) (omega arith))
          h.1 (subst (λ n. valid_from n rest ≡ true) (omega arith) tail)))

module _ (value : Bytes) (n : length value ≡ 16) (bytes : All IsByte value) where
  length-slice :
      (first width : ℕ) → first + width ≤ 16 → length (take width (drop first value)) ≡ width
  length-slice first width h = length-take width _ (omega (arith, length-drop first value))

  slice_ok :
      (index first width : ℕ) (rest : Bytes)
      → first + width ≤ 16
      → NoDash index (index + 2 * width)
      → valid_from (index + 2 * width) rest ≡ true
      → valid_from index (hex_slice first width value ++ rest) ≡ true
  unfolding hex_slice
  slice_ok index first width rest h clear tail =
      valid_from-digits index (take width (drop first value)) rest
        (rw (length-slice first width h) clear)
        (All-take IsByte width _ (All-drop IsByte first value bytes))
        (rw (length-slice first width h) tail)

  length-hex_slice :
      (first width : ℕ) → first + width ≤ 16 → length (hex_slice first width value) ≡ 2 * width
  unfolding hex_slice
  length-hex_slice first width h =
      omega (arith, length-hex_encode (take width (drop first value)), length-slice first width h)

-- The text of sixteen bytes, after their version and variant bits are set.
abbrev grouped : Bytes → Bytes
grouped value =
    hex_slice 0 4 value
    ++ b'-'
      ∷ (hex_slice 4 2 value
          ++ b'-'
            ∷ (hex_slice 6 2 value ++ b'-' ∷ (hex_slice 8 2 value ++ b'-' ∷ hex_slice 10 6 value)))

module _ (value : Bytes) (n : length value ≡ 16) (bytes : All IsByte value) where
  last_ok : valid_from 24 (hex_slice 10 6 value) ≡ true
  unfolding valid_from
  last_ok =
      rw (← append-nil (hex_slice 10 6 value))
        (slice_ok value n bytes 24 10 6 [] (omega arith) (λ j lo hi. ground arith) refl)

  grouped_valid : valid_from 0 (grouped value) ≡ true
  unfolding valid_from
  grouped_valid =
      slice_ok value n bytes 0 0 4 _ (omega arith) (λ j lo hi. ground arith)
        (slice_ok value n bytes 9 4 2 _ (omega arith) (λ j lo hi. ground arith)
          (slice_ok value n bytes 14 6 2 _ (omega arith) (λ j lo hi. ground arith)
            (slice_ok value n bytes 19 8 2 _ (omega arith) (λ j lo hi. ground arith) last_ok)))

  length-grouped : length (grouped value) ≡ 36
  length-grouped = simp length-append (
      omega (
        arith,
        length-hex_slice value n bytes 0 4 (omega arith),
        length-hex_slice value n bytes 4 2 (omega arith),
        length-hex_slice value n bytes 6 2 (omega arith),
        length-hex_slice value n bytes 8 2 (omega arith),
        length-hex_slice value n bytes 10 6 (omega arith),
      ))

-- What `NewUUID` returns, `ValidUUID` accepts, whatever sixteen bytes the system's randomness gave.
pub valid_uuid-new_uuid :
    (random id : Bytes)
    → length random ≡ 16
    → All IsByte random
    → new_uuid (some random) ≡ ok id
    → valid_uuid id ≡ true
unfolding new_uuid format_uuid valid_uuid
valid_uuid-new_uuid random id n bytes made =
    subst (λ s. (length s == 36 && valid_from 0 s) ≡ true) (ok-injective made)
      (rw (length-grouped value size range) (grouped_valid value size range))
  where
    value : Bytes
    value = update_at (update_at random 6 version_byte) 8 variant_byte

    size : length value ≡ 16
    size = length-update_at _ 8 variant_byte ∙ length-update_at random 6 version_byte ∙ n

    range : All IsByte value
    range =
        All-update_at _ 8 variant_byte variant_byte-IsByte
          (All-update_at random 6 version_byte version_byte-IsByte bytes)
