-- ===== src/Commands/Cycles.antt =====
-- cmd/worker/main.go: the cleanups' one-minute schedule, checked between cycles.
use p3_relay.Prelude.{
  ℕ, ◌+◌, ◌≤◌, ◌<◌, ◌≡◌, refl, subst, sym, ◌⊎◌, true, false, List, [], ◌∷◌, arith, leb, ltb,
  Bool-cases, inl, inr, All, All-mono, All-zip,
}
use p3_relay.Delivery.{minute}
use p3_relay.Commands.{cleanups}

-- The instants of a clock that does not run backwards.
abbrev pub Ordered : List ℕ → Type 0
Ordered [] = Unit
Ordered (now ∷ rounds) = All (λ r. now ≤ r) rounds × Ordered rounds

-- Instants from `due` on that lie a minute apart.
abbrev pub Spaced : ℕ → List ℕ → Type 0
Spaced due [] = Unit
Spaced due (now ∷ later) = (due ≤ now) × Spaced (now + minute) later

-- A cleanup took place in the minute up to `r`.
abbrev pub IsRecent : ℕ → List ℕ → Type 0
IsRecent r [] = ⊥
IsRecent r (c ∷ later) = ((c ≤ r) × (r < c + minute)) ⊎ IsRecent r later

cleanups-Spaced : (due : ℕ) (rounds : List ℕ) → Spaced due (cleanups due rounds)
unfolding cleanups
cleanups-Spaced due [] = tt
cleanups-Spaced due (now ∷ rounds) = elim (Bool-cases (leb due now)) [
  | inl old ↦ rw old (ground arith, cleanups-Spaced (now + minute) rounds)
  | inr fresh ↦ rw fresh (cleanups-Spaced due rounds)
]

later-IsRecent :
    (now r : ℕ) (later : List ℕ)
    → (now ≤ r) × (now + minute ≤ r → IsRecent r later)
    → IsRecent r (now ∷ later)
later-IsRecent now r later h = elim (Bool-cases (ltb r (now + minute))) [
  | inl soon ↦ inl (h.0, ground arith)
  | inr late ↦ inr (h.1 (ground arith))
]

cleanups-due :
    (due now : ℕ) (rounds : List ℕ)
    → leb due now ≡ true
    → cleanups due (now ∷ rounds) ≡ now ∷ cleanups (now + minute) rounds
unfolding cleanups
cleanups-due due now rounds old = rw old refl

cleanups-early :
    (due now : ℕ) (rounds : List ℕ)
    → leb due now ≡ false
    → cleanups due (now ∷ rounds) ≡ cleanups due rounds
unfolding cleanups
cleanups-early due now rounds fresh = rw fresh refl

cleanups-IsRecent :
    (due : ℕ) (rounds : List ℕ)
    → Ordered rounds
    → All (λ r. due ≤ r → IsRecent r (cleanups due rounds)) rounds
cleanups-IsRecent due [] h = tt
cleanups-IsRecent due (now ∷ rounds) h = elim (Bool-cases (leb due now)) [
  | inl old ↦
      subst (λ found. All (λ r. due ≤ r → IsRecent r found) (now ∷ rounds))
        (sym (cleanups-due due now rounds old))
        (
          λ _. inl (omega arith, omega arith),
          All-mono _ _ rounds (λ r k _. later-IsRecent now r (cleanups (now + minute) rounds) k)
              (All-zip (λ r. now ≤ r) _ rounds h.0 (cleanups-IsRecent (now + minute) rounds h.1)),
        )
  | inr fresh ↦
      subst (λ found. All (λ r. due ≤ r → IsRecent r found) (now ∷ rounds))
        (sym (cleanups-early due now rounds fresh))
        (λ past. absurd (ground arith), cleanups-IsRecent due rounds h.1)
]

-- Cleanups lie at least a minute apart; and if the clock does not run backwards, every round from
-- the first due instant on has had one in the minute up to it.
pub cleanups-Paced :
    (due : ℕ) (rounds : List ℕ)
    → Ordered rounds
    → All (λ r. due ≤ r) rounds
    → Spaced due (cleanups due rounds) × All (λ r. IsRecent r (cleanups due rounds)) rounds
cleanups-Paced due rounds h started = (
  cleanups-Spaced due rounds,
  All-mono _ _ rounds (λ r k. k.1 k.0)
      (All-zip _ _ rounds started (cleanups-IsRecent due rounds h)),
)
