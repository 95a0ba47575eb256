-- ===== src/Table/Rows.antt =====
-- What holds of every row of a table holds of every row that a query or an update gives.
use p3_relay.Prelude.{
  ◌≡◌, subst, sym, Bool, true, false, some, List, [], ◌∷◌, Bytes, bytes_eq, bytes_eq→eq,
  bytes_eq_refl, All, All-mono, filter, arith, Bool-cases, inl, inr, if◌then◌else◌,
}
use p3_relay.Table.Laws.{find-key}
use p3_relay.Table.{find, update, exists, is_there, insert_by, order_by, first_row, Unique}

module _ {A : Type 0} (P : A → Type 0) where
  pub All-filter :
      (test : A → Bool) (rows : List A)
      → All P rows
      → All (λ r. P r × (test r ≡ true)) (filter test rows)
  All-filter test [] h = tt
  All-filter test (r ∷ rows) h = elim (Bool-cases (test r)) [
    | inl e ↦ rw e ((h.0, e), All-filter test rows h.1)
    | inr e ↦ rw e (All-filter test rows h.1)
  ]

  pub All-insert_by :
      (before : A → A → Bool) (r : A) (rows : List A)
      → P r
      → All P rows
      → All P (insert_by before r rows)
  unfolding insert_by
  All-insert_by before r [] p h = (p, tt)
  All-insert_by before r (s ∷ rows) p h = elim (Bool-cases (before r s)) [
    | inl e ↦ rw e (p, h)
    | inr e ↦ rw e (h.0, All-insert_by before r rows p h.1)
  ]

  pub All-order_by :
      (before : A → A → Bool) (rows : List A) → All P rows → All P (order_by before rows)
  unfolding order_by
  All-order_by before [] h = tt
  All-order_by before (r ∷ rows) h =
      All-insert_by before r (order_by before rows) h.0 (All-order_by before rows h.1)

  pub first_row-All : (rows : List A) (r : A) → All P rows → first_row rows ≡ some r → P r
  first_row-All [] r h e = cc
  first_row-All (x ∷ rows) r h e = subst P (cc) h.0

  pub find-All :
      (key : A → Bytes) (k : Bytes) (rows : List A) (r : A)
      → All P rows
      → find key k rows ≡ some r
      → P r
  unfolding find
  find-All key k [] r h e = cc
  find-All key k (x ∷ rows) r h e = elim (Bool-cases (bytes_eq (key x) k)) [
    | inl hit ↦ let same : x ≡ r = ground arith in subst P same h.0
    | inr miss ↦ find-All key k rows r h.1 (rw (miss, find) at e)
  ]

  -- A row that a condition finds, with what holds of all rows.
  pub exists-All :
      (where_ : A → Bool) (rows : List A)
      → All P rows
      → exists where_ rows ≡ true
      → (r : A) × (where_ r ≡ true) × P r
  unfolding exists
  exists-All where_ [] h e = cc
  exists-All where_ (x ∷ rows) h e = elim (Bool-cases (where_ x)) [
    | inl hit ↦ (x, hit, h.0)
    | inr miss ↦ exists-All where_ rows h.1 (rw (miss, exists) at e)
  ]

  pub All-update :
      (Q : A → Type 0) (where_ : A → Bool) (set : A → A) (rows : List A)
      → ((r : A) → P r → Q (if where_ r then set r else r))
      → All P rows
      → All Q (update where_ set rows)
  unfolding update
  All-update Q where_ set [] keep h = tt
  All-update Q where_ set (r ∷ rows) keep h = (keep r h.0, All-update Q where_ set rows keep h.1)

-- A row is the one that its key finds.
abbrev pub IsFound : {A : Type 0} → (A → Bytes) → List A → A → Type 0
IsFound key rows r = find key (key r) rows ≡ some r

module _ {A : Type 0} (key : A → Bytes) where
  IsFound-later :
      (x : A) (rows : List A) (r : A)
      → is_there key (key x) rows ≡ false
      → IsFound key rows r
      → IsFound key (x ∷ rows) r
  unfolding find
  IsFound-later x rows r fresh e = elim (Bool-cases (bytes_eq (key x) (key r))) [
    | inl same ↦
        let stale = subst (λ k. is_there key k rows ≡ false) (bytes_eq→eq _ _ same) fresh in
        ground arith
    | inr other ↦ rw (other, find) e
  ]

  pub Unique-IsFound : (rows : List A) → Unique key rows → All (IsFound key rows) rows
  unfolding find
  Unique-IsFound [] h = tt
  Unique-IsFound (x ∷ rows) h = (
    rw (bytes_eq_refl (key x)),
    All-mono (IsFound key rows) (IsFound key (x ∷ rows)) rows (λ r e. IsFound-later x rows r h.0 e)
        (Unique-IsFound rows h.1),
  )

  pub find-IsFound :
      (k : Bytes) (rows : List A) (r : A) → find key k rows ≡ some r → IsFound key rows r
  find-IsFound k rows r e = subst (λ j. find key j rows ≡ some r) (sym (find-key key k rows r e)) e
