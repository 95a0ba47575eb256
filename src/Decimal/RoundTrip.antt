-- ===== src/Decimal/RoundTrip.antt =====
-- The value of a number's decimal text.
use native.Mathlib.Nat.{pow-suc}
use p3_relay.Prelude.{
  ℕ, zero, suc, ◌+◌, ◌-◌, ◌*◌, ◌/◌, ◌%◌, ◌^◌, ◌<◌, ◌≡◌, ◌≢◌, refl, some, [], ◌∷◌, ◌++◌, Bytes,
  arith, ltb, Bool-cases, ltb→lt, lt→ltb, ◌∙◌, ap, inl, inr, All, All-append, true,
}
use p3_relay.Decimal.{is_digit, digits, format_uint, digits_value, parse_uint}

digits_value-append :
    (acc : ℕ) (s : Bytes) (d v : ℕ)
    → digits_value acc s ≡ some v
    → d < 10
    → digits_value acc (s ++ (b'0' + d) ∷ []) ≡ some (v * 10 + d)
unfolding digits_value
digits_value-append acc [] d v h k = ground arith
digits_value-append acc (c ∷ s) d v h k =
    ground (arith, digits_value-append (acc * 10 + (c - b'0')) s d v)

digits_value-digit : (n : ℕ) → n < 10 → digits_value 0 ((b'0' + n) ∷ []) ≡ some n
unfolding digits_value
digits_value-digit n h = ground arith

pub digits_value-digits :
    (fuel n : ℕ) → n < 10 ^ suc fuel → digits_value 0 (digits (suc fuel) n) ≡ some n
unfolding digits
digits_value-digits zero n h = rw (lt→ltb n 10 (omega arith)) (digits_value-digit n (omega arith))
digits_value-digits (suc fuel) n h = elim (Bool-cases (ltb n 10)) [
  | inl small ↦ rw small (digits_value-digit n (ltb→lt n 10 small))
  | inr large ↦ rw large (
      digits_value-append 0 _ (n % 10) (n / 10)
        (digits_value-digits fuel (n / 10) (omega (arith, pow-suc 10 (suc fuel)))) (omega arith)
      ∙ ap some (omega arith))
]

append-ne-nil : (xs : Bytes) (d : ℕ) → xs ++ d ∷ [] ≢ []
append-ne-nil [] d h = cc
append-ne-nil (x ∷ xs) d h = cc

pub digits-ne-nil : (fuel n : ℕ) → digits (suc fuel) n ≢ []
unfolding digits
digits-ne-nil fuel n = elim (Bool-cases (ltb n 10)) [
  | inl small ↦ rw small (λ h. cc)
  | inr large ↦ rw large (append-ne-nil (digits fuel (n / 10)) (b'0' + n % 10))
]

parse_uint-value :
    (limit n : ℕ) (s : Bytes)
    → s ≢ []
    → digits_value 0 s ≡ some n
    → n < limit
    → parse_uint limit s ≡ some n
unfolding parse_uint
parse_uint-value limit n [] full h k = absurd (full refl)
parse_uint-value limit n (c ∷ s) full h k = rw (h, parse_uint) (rw (lt→ltb n limit k))

-- Reading a formatted number gives it back: every uint64 below the limit that the reader sets.
pub parse_uint-format_uint :
    (limit n : ℕ) → n < 2 ^ 64 → n < limit → parse_uint limit (format_uint n) ≡ some n
parse_uint-format_uint limit n word h =
    parse_uint-value limit n (format_uint n) (digits-ne-nil 19 n)
      (digits_value-digits 19 n (omega arith)) h

pub digits-All : (fuel n : ℕ) → All (λ c. is_digit c ≡ true) (digits fuel n)
unfolding digits
digits-All zero n = tt
digits-All (suc fuel) n = elim (Bool-cases (ltb n 10)) [
  | inl small ↦ rw small (ground arith, tt)
  | inr large ↦
      rw large
        (All-append (λ c. is_digit c ≡ true) _ _ (digits-All fuel (n / 10)) (ground arith, tt))
]
