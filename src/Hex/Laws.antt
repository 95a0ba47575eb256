-- ===== src/Hex/Laws.antt =====
-- What hexadecimal text keeps of the bytes that it encodes.
use p3_relay.Prelude.{
  ℕ, ◌+◌, ◌-◌, ◌*◌, ◌/◌, ◌%◌, ◌<◌, ◌≡◌, refl, Bool, true, ◌&&◌, ◌||◌, some, [], ◌∷◌, Bytes, All,
  arith, length, ltb, leb, ap, if◌then◌else◌,
}
use p3_relay.Hex.{hex_digit, hex_encode, unhex, hex_decode, join_nibbles}

abbrev pub IsByte : ℕ → Type 0
IsByte b = b < 256

pub unhex-hex_digit : (n : ℕ) → n < 16 → unhex (hex_digit n) ≡ some n
unfolding unhex hex_digit
unhex-hex_digit n h = ground arith

-- One step of decoding, for either way to write a digit.
join_digits :
    (digit : ℕ → ℕ)
    → ((n : ℕ) → n < 16 → unhex (digit n) ≡ some n)
    → (b : ℕ) (rest s : Bytes) → b < 256
    → hex_decode rest ≡ some s
    → join_nibbles (unhex (digit (b / 16))) (unhex (digit (b % 16))) (hex_decode rest)
      ≡ some (b ∷ s)
join_digits digit back b rest s h e =
    rw (back (b / 16) (omega arith), back (b % 16) (omega arith), e)
      (ap (λ n. some (n ∷ s)) (omega arith))

-- Decoding what was encoded gives the bytes back.
pub hex_decode-hex_encode : (s : Bytes) → All IsByte s → hex_decode (hex_encode s) ≡ some s
unfolding hex_decode hex_encode
hex_decode-hex_encode [] h = refl
hex_decode-hex_encode (b ∷ s) h =
    join_digits hex_digit unhex-hex_digit b (hex_encode s) s h.0 (hex_decode-hex_encode s h.1)

pub length-hex_encode : (s : Bytes) → length (hex_encode s) ≡ 2 * length s
unfolding hex_encode
length-hex_encode [] = refl
length-hex_encode (b ∷ s) = omega (arith, length-hex_encode s)

-- The digits that `hex_encode` writes.
abbrev pub is_hex_lower : ℕ → Bool
is_hex_lower c = (leb b'0' c && leb c b'9') || (leb b'a' c && leb c b'f')

pub hex_digit-is_hex_lower : (n : ℕ) → n < 16 → is_hex_lower (hex_digit n) ≡ true
unfolding hex_digit
hex_digit-is_hex_lower n h = ground arith

-- Uppercase digits, which `hex_encode` never writes.
unfoldable pub upper_digit : ℕ → ℕ
upper_digit n = if ltb n 10 then b'0' + n else b'A' + (n - 10)

unfoldable pub upper_encode : Bytes → Bytes
upper_encode [] = []
upper_encode (b ∷ s) = upper_digit (b / 16) ∷ upper_digit (b % 16) ∷ upper_encode s

pub unhex-upper_digit : (n : ℕ) → n < 16 → unhex (upper_digit n) ≡ some n
unfolding unhex upper_digit
unhex-upper_digit n h = ground arith

pub hex_decode-upper_encode : (s : Bytes) → All IsByte s → hex_decode (upper_encode s) ≡ some s
unfolding hex_decode upper_encode
hex_decode-upper_encode [] h = refl
hex_decode-upper_encode (b ∷ s) h =
    join_digits upper_digit unhex-upper_digit b (upper_encode s) s h.0
      (hex_decode-upper_encode s h.1)

pub length-upper_encode : (s : Bytes) → length (upper_encode s) ≡ 2 * length s
unfolding upper_encode
length-upper_encode [] = refl
length-upper_encode (b ∷ s) = omega (arith, length-upper_encode s)
