-- ===== src/Delivery/Sender/Schedule.antt =====
-- When the next attempt is due.
use p3_relay.Prelude.{
  ℕ, refl, ◌+◌, ◌-◌, ◌*◌, ◌/◌, ◌≤◌, ◌≡◌, [], ◌∷◌, ◌++◌, Bytes, arith, leb, Bool-cases, inl, inr,
  ◌⊎◌,
}
use p3_relay.Decimal.{format_uint}
use p3_relay.Delivery.{ClaimedEvent, Outcome, retryable_http, network_error}
use p3_relay.Delivery.Sender.{delay, delay_index, jitter, jittered, next_attempt_at}

jitter-le : (digest : Bytes) → jitter digest ≤ 400
unfolding jitter
jitter-le [] = omega arith
jitter-le (a ∷ []) = omega arith
jitter-le (a ∷ b ∷ r) = omega arith

share_bound : (wait k : ℕ) → k ≤ 200 → wait * k / 1000 * 5 ≤ wait
share_bound wait k h = omega (arith, scaled)
  where
    scaled : wait * k ≤ wait * 200
    scaled = grind arith

jittered_bounds :
    (wait j : ℕ) → j ≤ 400 → (wait * 4 ≤ jittered wait j * 5) × (jittered wait j * 5 ≤ wait * 6)
unfolding jittered
jittered_bounds wait j h = elim (Bool-cases (leb 200 j)) [
  | inl up ↦ rw up (omega (arith, share_bound wait (j - 200)))
  | inr down ↦ rw down (omega (arith, share_bound wait (200 - j)))
]

-- The delivery contract's delay after the attempt with a number, in nanoseconds: 5 seconds,
-- 30 seconds, 2, 10 and 30 minutes, 2 hours, and 6 hours from the seventh attempt on.
pub data Nominal : ℕ → ℕ → Type 0 where
  after_first : Nominal 1 5000000000
  after_second : Nominal 2 30000000000
  after_third : Nominal 3 120000000000
  after_fourth : Nominal 4 600000000000
  after_fifth : Nominal 5 1800000000000
  after_sixth : Nominal 6 7200000000000
  later : (n : ℕ) → 7 ≤ n → Nominal n 21600000000000

delay-Nominal : (n wait : ℕ) → Nominal n wait → delay (delay_index n) ≡ wait
unfolding delay
delay-Nominal n wait after_first = refl
delay-Nominal n wait after_second = refl
delay-Nominal n wait after_third = refl
delay-Nominal n wait after_fourth = refl
delay-Nominal n wait after_fifth = refl
delay-Nominal n wait after_sixth = refl
delay-Nominal n wait (later m late) = elim (Bool-cases (leb 8 m)) [
  | inl past ↦ rw past refl
  | inr seventh ↦ let same : m ≡ 7 = ground arith in rw same refl
]

-- After a retryable answer or a network error the next attempt waits for the delay that the
-- delivery contract gives for the attempt's number, from 5 seconds after the first to 6 hours from
-- the seventh on, give or take a fifth, counted from the instant that is given.
pub next_attempt_at_window :
    (sha256 : Bytes → Bytes) (claimed : ClaimedEvent) (now wait : ℕ) (outcome : Outcome)
    → Nominal claimed.attempt_number wait
    → (outcome ≡ retryable_http) ⊎ (outcome ≡ network_error)
    → let next = next_attempt_at sha256 claimed now outcome in
      (now * 5 + wait * 4 ≤ next * 5) × (next * 5 ≤ now * 5 + wait * 6)
unfolding next_attempt_at
next_attempt_at_window sha256 claimed now wait outcome nominal retry =
    let scheduled = delay-Nominal claimed.attempt_number wait nominal in
    let index = delay_index claimed.attempt_number in
    let j = jitter (sha256 (claimed.id ++ b':' ∷ format_uint index)) in
    ground (
      arith,
      jittered_bounds (delay index) j,
      jitter-le (sha256 (claimed.id ++ b':' ∷ format_uint index)),
      scheduled,
    )

-- Whatever the outcome, the next attempt is never due before the instant that is given.
pub next_attempt_at-le :
    (sha256 : Bytes → Bytes) (claimed : ClaimedEvent) (now : ℕ) (outcome : Outcome)
    → now ≤ next_attempt_at sha256 claimed now outcome
unfolding next_attempt_at
next_attempt_at-le sha256 claimed now outcome = ground arith
