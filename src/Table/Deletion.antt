-- ===== src/Table/Deletion.antt =====
-- What a lookup by key sees after rows were deleted.
use p3_relay.Prelude.{
  ◌≡◌, refl, Bool, false, Option, none, some, List, [], ◌∷◌, Bytes, bytes_eq, bytes_eq→eq, All,
  filter, arith, inl, inr, Bool-cases, if◌then◌else◌, subst,
}
use p3_relay.Table.{find, is_there, Unique}

-- What a deletion keeps of a row that was found.
abbrev pub retain : {A : Type 0} → (A → Bool) → Option A → Option A
retain keep none = none
retain keep (some r) = if keep r then some r else none

module _ {A : Type 0} (keep : A → Bool) where
  pub All-filter_weak : (P : A → Type 0) (rows : List A) → All P rows → All P (filter keep rows)
  All-filter_weak P [] h = tt
  All-filter_weak P (r ∷ rows) h = elim (Bool-cases (keep r)) [
    | inl e ↦ rw e (h.0, All-filter_weak P rows h.1)
    | inr e ↦ rw e (All-filter_weak P rows h.1)
  ]

is_there-false :
    {A : Type 0} (key : A → Bytes) (k : Bytes) (rows : List A)
    → is_there key k rows ≡ false
    → find key k rows ≡ none
is_there-false key k rows h = ground arith

module _ {A : Type 0} (key : A → Bytes) (keep : A → Bool) where
  pub find-filter :
      (k : Bytes) (rows : List A)
      → Unique key rows
      → find key k (filter keep rows) ≡ retain keep (find key k rows)
  unfolding find
  find-filter k [] u = refl
  find-filter k (r ∷ rows) u = elim (Bool-cases (bytes_eq (key r) k)) [
    | inl hit ↦
        let gone : find key k rows ≡ none =
          subst (λ j. find key j rows ≡ none) (bytes_eq→eq (key r) k hit)
            (is_there-false key (key r) rows u.0) in
        ground (arith, find-filter k rows u.1)
    | inr miss ↦ ground (arith, find-filter k rows u.1)
  ]

  pub Unique-filter : (rows : List A) → Unique key rows → Unique key (filter keep rows)
  Unique-filter [] u = tt
  Unique-filter (r ∷ rows) u = elim (Bool-cases (keep r)) [
    | inl e ↦ rw e (ground (arith, find-filter (key r) rows u.1), Unique-filter rows u.1)
    | inr e ↦ rw e (Unique-filter rows u.1)
  ]
