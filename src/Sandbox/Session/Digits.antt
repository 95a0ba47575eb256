-- ===== src/Sandbox/Session/Digits.antt =====
-- The parts of a credential's text: their digits, their length, and where they are split.
use native.Mathlib.Nat.{pow-suc}
use p3_relay.Prelude.{
  ℕ, zero, suc, ◌+◌, ◌/◌, ◌%◌, ◌^◌, ◌≤◌, ◌<◌, ◌≡◌, ◌≢◌, refl, true, some, [], ◌∷◌, ◌++◌, Bytes, All,
  All-mono, length, length-append, arith, ltb, Bool-cases, ltb→lt, lt→ltb, inl, inr, ap,
}
use p3_relay.Hex.{hex_encode}
use p3_relay.Hex.Laws.{IsByte, is_hex_lower, hex_digit-is_hex_lower}
use p3_relay.Decimal.{digits, is_digit}
use p3_relay.Decimal.RoundTrip.{digits-All}
use p3_relay.Sandbox.Session.{cut, split_token}

-- What separates no parts.
abbrev pub IsPlain : Bytes → Type 0
IsPlain s = All (λ c. c ≢ b'.') s

pub cut-plain : (s rest : Bytes) → IsPlain s → cut (s ++ b'.' ∷ rest) ≡ some (s, rest)
unfolding cut
cut-plain [] rest h = refl
cut-plain (c ∷ s) rest h = ground (arith, cut-plain s rest h.1)

split_token-parts :
    (a b c : Bytes)
    → IsPlain a
    → IsPlain b
    → split_token (a ++ b'.' ∷ (b ++ b'.' ∷ c)) ≡ some (a, b, c)
unfolding split_token
split_token-parts a b c ha hb = rw (cut-plain a (b ++ b'.' ∷ c) ha, cut-plain b c hb) refl

parts_join : (a b c : Bytes) → (a ++ b'.' ∷ b) ++ b'.' ∷ c ≡ a ++ b'.' ∷ (b ++ b'.' ∷ c)
parts_join [] b c = refl
parts_join (x ∷ a) b c = ap (λ l. x ∷ l) (parts_join a b c)

-- A token is split into the parts that it was made of.
pub split_token-payload :
    (a b c : Bytes)
    → IsPlain a
    → IsPlain b
    → split_token ((a ++ b'.' ∷ b) ++ b'.' ∷ c) ≡ some (a, b, c)
split_token-payload a b c ha hb = rw (parts_join a b c) (split_token-parts a b c ha hb)

digit_plain : (c : ℕ) → is_digit c ≡ true → c ≢ b'.'
digit_plain c h = ground arith

hex_plain : (c : ℕ) → is_hex_lower c ≡ true → c ≢ b'.'
hex_plain c h = ground arith

pub hex_encode-IsPlain : (s : Bytes) → All IsByte s → IsPlain (hex_encode s)
unfolding hex_encode
hex_encode-IsPlain [] h = tt
hex_encode-IsPlain (b ∷ s) h = (
  hex_plain _ (hex_digit-is_hex_lower (b / 16) (omega arith)),
  (hex_plain _ (hex_digit-is_hex_lower (b % 16) (omega arith)), hex_encode-IsPlain s h.1),
)

pub digits-IsPlain : (fuel n : ℕ) → IsPlain (digits fuel n)
digits-IsPlain fuel n = All-mono _ _ _ digit_plain (digits-All fuel n)

-- A number of `k + 1` digits.
pub length-digits :
    (fuel k n : ℕ) → k ≤ fuel → 10 ^ k ≤ n → n < 10 ^ suc k → length (digits (suc fuel) n) ≡ suc k
unfolding digits
length-digits fuel zero n room low high = rw (lt→ltb n 10 (omega arith)) refl
length-digits zero (suc k) n room low high = absurd (omega arith)
length-digits (suc fuel) (suc k) n room low high = elim (Bool-cases (ltb n 10)) [
  | inl small ↦ absurd (omega (arith, pow-suc 10 k, ltb→lt n 10 small, pow_pos k))
  | inr large ↦ rw large (
      omega (
        arith,
        length-append (digits (suc fuel) (n / 10)) ((b'0' + n % 10) ∷ []),
        length-digits fuel k (n / 10) (omega arith) (omega (arith, pow-suc 10 k))
            (omega (arith, pow-suc 10 (suc k))),
      ))
]
  where
    pow_pos : (k : ℕ) → 1 ≤ 10 ^ k
    pow_pos zero = omega arith
    pow_pos (suc k) = omega (arith, pow-suc 10 k, pow_pos k)
