-- ===== src/Table.antt =====
-- Tables with a key, as PostgreSQL keeps them behind a primary key: rows in storage order, found,
-- counted and updated by a condition. The queries of internal/postgres and internal/sandbox are
-- written with these.
pub mod Laws
pub mod Rows
pub mod Deletion
pub mod Misses
pub mod Apart
use mathlib.Core.Path.{◌≡◌}
use p3_relay.Prelude.{
  ℕ, Bool, true, false, ◌&&◌, Option, none, some, List, [], ◌∷◌, map, Bytes, bytes_eq, is_some,
  if◌then◌else◌,
}

module _ {A : Type 0} where
  -- The first row with the key: `WHERE id = $1`.
  unfoldable pub find : (A → Bytes) → Bytes → List A → Option A
  find key k [] = none
  find key k (r ∷ rows) = let rest = find key k rows in if bytes_eq (key r) k then some r else rest

  -- `UPDATE … SET … WHERE …`.
  unfoldable pub update : (A → Bool) → (A → A) → List A → List A
  update where_ set [] = []
  update where_ set (r ∷ rows) = (if where_ r then set r else r) ∷ update where_ set rows

  abbrev pub is_there : (A → Bytes) → Bytes → List A → Bool
  is_there key k rows = is_some (find key k rows)

  -- `EXISTS (SELECT … WHERE …)`.
  unfoldable pub exists : (A → Bool) → List A → Bool
  exists where_ [] = false
  exists where_ (r ∷ rows) = let rest = exists where_ rows in if where_ r then true else rest

  -- `ORDER BY`, stable: rows that compare equal keep the storage order.
  unfoldable pub insert_by : (A → A → Bool) → A → List A → List A
  insert_by before r [] = r ∷ []
  insert_by before r (s ∷ rows) =
      let rest = insert_by before r rows in if before r s then r ∷ s ∷ rows else s ∷ rest

  unfoldable pub order_by : (A → A → Bool) → List A → List A
  unfolding insert_by
  order_by before [] = []
  order_by before (r ∷ rows) = insert_by before r (order_by before rows)

  -- `LIMIT 1`.
  abbrev pub first_row : List A → Option A
  first_row [] = none
  first_row (r ∷ rows) = some r

-- The primary key: no two rows share it.
abbrev pub Unique : {A : Type 0} → (A → Bytes) → List A → Type 0
Unique key [] = Unit
Unique key (r ∷ rows) = (is_there key (key r) rows ≡ false) × Unique key rows
