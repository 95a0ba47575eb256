-- ===== src/Identifier.antt =====
-- internal/identifier/identifier.go: random identifiers in the form of a version 4 UUID, and the
-- check of that form. `rand.Read` is a parameter: the sixteen bytes that it gave, or its error.
pub mod Format
use Prim.Native.Nat.{bit_and, bit_or}
use p3_relay.Prelude.{
  ℕ, suc, ◌+◌, Bool, true, false, ◌&&◌, ◌||◌, not, Option, none, some, List, [], ◌∷◌, ◌++◌, Bytes,
  codes, length, take, drop, leb, ◌==◌, if◌then◌else◌,
}
use p3_relay.Errors.{Result, ok, err, failed}
use p3_relay.Hex.{hex_encode}

-- A write at an index; the program writes inside the array.
abbrev pub update_at : List ℕ → ℕ → (ℕ → ℕ) → List ℕ
update_at [] i f = []
update_at (x ∷ xs) ℕ.zero f = f x ∷ xs
update_at (x ∷ xs) (suc i) f = x ∷ update_at xs i f

abbrev pub version_byte : ℕ → ℕ
version_byte b = bit_or (bit_and b 0x0f) 0x40

abbrev pub variant_byte : ℕ → ℕ
variant_byte b = bit_or (bit_and b 0x3f) 0x80

-- `value[first:last]` through the verb `%x`.
hex_slice : ℕ → ℕ → Bytes → Bytes
unfolding hex_encode
hex_slice first width value = hex_encode (take width (drop first value))

unfoldable pub format_uuid : Bytes → Bytes
unfolding hex_slice
format_uuid random =
    let value = update_at (update_at random 6 version_byte) 8 variant_byte in
    hex_slice 0 4 value
    ++ b'-'
      ∷ (hex_slice 4 2 value
          ++ b'-'
            ∷ (hex_slice 6 2 value ++ b'-' ∷ (hex_slice 8 2 value ++ b'-' ∷ hex_slice 10 6 value)))

unfoldable pub new_uuid : Option Bytes → Result Bytes
new_uuid none = err (failed "read random identifier")
new_uuid (some random) = ok (format_uuid random)

abbrev pub is_dash_index : ℕ → Bool
is_dash_index index = index == 8 || index == 13 || index == 18 || index == 23

abbrev pub valid_character : ℕ → ℕ → Bool
valid_character index character =
    if is_dash_index index
    then character == b'-'
    else (leb b'0' character && leb character b'9') || (leb b'a' character && leb character b'f')

-- The loop of `ValidUUID` from an index on.
unfoldable pub valid_from : ℕ → Bytes → Bool
valid_from index [] = true
valid_from index (character ∷ rest) = valid_character index character && valid_from (index + 1) rest

unfoldable pub valid_uuid : Bytes → Bool
unfolding valid_from
valid_uuid value = length value == 36 && valid_from 0 value
