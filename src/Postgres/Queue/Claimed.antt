-- ===== src/Postgres/Queue/Claimed.antt =====
-- What one claim does to each row: it retires it, leases it, or leaves it.
use p3_relay.Prelude.{
  ℕ, ◌≡◌, refl, inl, inr, Bool, true, false, not, Option, none, some, List, Bytes, bytes_eq,
  bytes_eq→eq, All, All-mono, All-take, subst, sym, ap, ◌∙◌, arith, Bool-cases, if◌then◌else◌,
}
use p3_relay.Table.{find, exists, Unique}
use p3_relay.Table.Rows.{
  IsFound, Unique-IsFound, All-filter, All-order_by, first_row-All, exists-All,
}
use p3_relay.Postgres.{EventRow, SessionRow, event_key}
use p3_relay.Postgres.Queue.{
  is_expired, is_eligible, expired_rows, candidate, retired, leased, is_candidate, created_first,
  due_first,
}

module _ (locked : Bytes → Bool) (now : ℕ) (sessions : List SessionRow)
    (events : List EventRow) where
  -- Every row that a claim retires is in the table, and is due to be retired.
  expired_rows-All :
      Unique event_key events
      → All
          (λ r. IsFound event_key events r × (is_expired now r ≡ true))
          (expired_rows locked now events)
  unfolding expired_rows
  expired_rows-All u = All-take _ 10 _ (
      All-mono _ _ _ (λ r h. h.0)
        (All-filter (λ r. IsFound event_key events r × (is_expired now r ≡ true)) _ _
          (All-order_by _ created_first _ (
            All-filter (IsFound event_key events) (is_expired now) events
              (Unique-IsFound event_key events u)))))

  -- The row that a claim leases is in the table, is eligible, and is locked by nobody.
  pub candidate_sound :
      (c : EventRow)
      → Unique event_key events
      → candidate locked now sessions events ≡ some c
      → IsFound event_key events c × (is_eligible now sessions c ≡ true) × (locked c.id ≡ false)
  unfolding candidate
  candidate_sound c u e =
      let found =
        first_row-All
          (λ r.
            (IsFound event_key events r × (is_eligible now sessions r ≡ true))
            × (not (locked r.id) ≡ true))
          _ c
          (All-filter (λ r. IsFound event_key events r × (is_eligible now sessions r ≡ true))
            (λ r. not (locked r.id)) _
            (All-order_by _ due_first _ (
              All-filter (IsFound event_key events) (is_eligible now sessions) events
                (Unique-IsFound event_key events u))))
          e in
      (found.0.0, found.0.1, ground arith)

pub same_row :
    (events : List EventRow) (a b : EventRow)
    → IsFound event_key events a
    → IsFound event_key events b
    → bytes_eq a.id b.id ≡ true
    → a ≡ b
same_row events a b fa fb h =
    let found : some a ≡ some b =
      sym fa ∙ ap (λ k. find event_key k events) (bytes_eq→eq a.id b.id h) ∙ fb in
    cc

is_candidate-retired :
    (chosen : Option EventRow) (r : EventRow)
    → is_candidate chosen (retired r) ≡ is_candidate chosen r
is_candidate-retired none r = refl
is_candidate-retired (some c) r = refl

-- A row too old to be claimed is not eligible.
pub expired-not-eligible :
    (now : ℕ) (sessions : List SessionRow) (r : EventRow)
    → is_expired now r ≡ true
    → is_eligible now sessions r ≡ true
    → ⊥
unfolding is_expired is_eligible
expired-not-eligible now sessions r old fit = ground arith

module _ (locked : Bytes → Bool) (now : ℕ) (sessions : List SessionRow)
    (events : List EventRow) where
  abbrev chosen : Option EventRow
  chosen = candidate locked now sessions events

  abbrev is_retired : EventRow → Bool
  is_retired r = exists (λ e. bytes_eq e.id r.id) (expired_rows locked now events)

  retired_expired :
      (r : EventRow)
      → Unique event_key events
      → IsFound event_key events r
      → is_retired r ≡ true
      → is_expired now r ≡ true
  retired_expired r u f h =
      let (e, same, (fe, old)) =
        exists-All _ (λ e. bytes_eq e.id r.id) _ (expired_rows-All locked now sessions events u)
          h in
      subst (λ x. is_expired now x ≡ true) (same_row events e r fe f same) old

  chosen_row :
      (r : EventRow) (found : Option EventRow)
      → Unique event_key events
      → IsFound event_key events r
      → chosen ≡ found
      → is_candidate found r ≡ true
      → (chosen ≡ some r) × (is_eligible now sessions r ≡ true)
  chosen_row r none u f e h = cc
  chosen_row r (some c) u f e h =
      let (fc, fit, free) = candidate_sound locked now sessions events c u e in
      let same = same_row events r c f fc h in
      (e ∙ ap some (sym same), subst (λ x. is_eligible now sessions x ≡ true) (sym same) fit)

  -- Whether the claim's two updates touch a row of the table, and how.
  pub data RowClaimed (claim_id : Bytes) (lease_end : ℕ) (r after : EventRow) : Type 0 where
    retires : is_expired now r ≡ true → after ≡ retired r → RowClaimed claim_id lease_end r after
    leases :
        is_eligible now sessions r ≡ true
        → chosen ≡ some r
        → after ≡ leased claim_id lease_end r
        → RowClaimed claim_id lease_end r after
    leaves : is_candidate chosen r ≡ false → after ≡ r → RowClaimed claim_id lease_end r after

  abbrev pub row_after : Bytes → ℕ → EventRow → EventRow
  row_after claim_id lease_end r =
      let first = if is_retired r then retired r else r in
      if is_candidate chosen first then leased claim_id lease_end first else first

  pub row_claimed :
      (claim_id : Bytes) (lease_end : ℕ) (r : EventRow)
      → Unique event_key events
      → IsFound event_key events r
      → RowClaimed claim_id lease_end r (row_after claim_id lease_end r)
  row_claimed claim_id lease_end r u f = elim (Bool-cases (is_retired r)) [
    | inl h ↦ elim (Bool-cases (is_candidate chosen r)) [
      | inl c ↦ absurd (
          expired-not-eligible now sessions r (retired_expired r u f h)
            (chosen_row r chosen u f refl c).1)
      | inr c ↦ retires (retired_expired r u f h) (rw h (rw (is_candidate-retired chosen r ∙ c)))
    ]
    | inr h ↦ elim (Bool-cases (is_candidate chosen r)) [
      | inl c ↦
          leases (chosen_row r chosen u f refl c).1 (chosen_row r chosen u f refl c).0 (rw h (rw c))
      | inr c ↦ leaves c (rw h (rw c))
    ]
  ]
