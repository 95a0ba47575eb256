-- ===== src/Table/Misses.antt =====
-- Statements whose condition no row satisfies.
use p3_relay.Prelude.{◌≡◌, refl, Bool, false, List, [], ◌∷◌, All, arith, count}
use p3_relay.Table.{update}

module _ {A : Type 0} (where_ : A → Bool) where
  pub update-none :
      (set : A → A) (rows : List A)
      → All (λ r. where_ r ≡ false) rows
      → update where_ set rows ≡ rows
  unfolding update
  update-none set [] h = refl
  update-none set (r ∷ rows) h = ground (arith, update-none set rows)

  pub count-none : (rows : List A) → All (λ r. where_ r ≡ false) rows → count where_ rows ≡ 0
  count-none [] h = refl
  count-none (r ∷ rows) h = ground (arith, count-none rows)
