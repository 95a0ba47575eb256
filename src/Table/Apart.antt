-- ===== src/Table/Apart.antt =====
-- Rows of which no two clash, as behind a unique key of several columns.
use p3_relay.Prelude.{
  ◌≡◌, ◌∙◌, inl, inr, Bool, false, List, [], ◌∷◌, ◌++◌, All, All-append, arith, Bool-cases, filter,
}
use p3_relay.Table.{exists}
use p3_relay.Table.Deletion.{All-filter_weak}

-- No two rows clash.
abbrev pub Apart : {A : Type 0} → (A → A → Bool) → List A → Type 0
Apart clash [] = Unit
Apart clash (r ∷ rows) = All (λ x. clash r x ≡ false) rows × Apart clash rows

module _ {A : Type 0} (clash : A → A → Bool) where
  pub exists-none :
      (row : A) (rows : List A)
      → exists (clash row) rows ≡ false
      → All (λ r. clash row r ≡ false) rows
  unfolding exists
  exists-none row [] h = tt
  exists-none row (r ∷ rows) h = (ground arith, exists-none row rows (ground arith))

  pub append-Apart :
      (rows : List A) (row : A)
      → ((r x : A) → clash r x ≡ clash x r)
      → All (λ r. clash row r ≡ false) rows
      → Apart clash rows
      → Apart clash (rows ++ row ∷ [])
  append-Apart [] row same free h = (tt, tt)
  append-Apart (r ∷ rows) row same free h = (
    All-append (λ x. clash r x ≡ false) rows (row ∷ []) h.0 (same r row ∙ free.0, tt),
    append-Apart rows row same free.1 h.1,
  )

  pub filter-Apart :
      (keep : A → Bool) (rows : List A) → Apart clash rows → Apart clash (filter keep rows)
  filter-Apart keep [] h = tt
  filter-Apart keep (r ∷ rows) h = elim (Bool-cases (keep r)) [
    | inl e ↦ rw e (All-filter_weak keep _ rows h.0, filter-Apart keep rows h.1)
    | inr e ↦ rw e (filter-Apart keep rows h.1)
  ]
