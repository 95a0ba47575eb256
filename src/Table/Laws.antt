-- ===== src/Table/Laws.antt =====
-- What a lookup by key sees after an insertion, an update and a deletion.
use mathlib.Core.Option
use p3_relay.Prelude.{
  ℕ, ◌≡◌, refl, ap, Bool, false, ◌&&◌, Option, none, some, List, [], ◌∷◌, ◌++◌, Bytes, bytes_eq,
  bytes_eq_iff, count, arith, if◌then◌else◌,
}
use p3_relay.Table.{find, update, is_there, Unique}

-- How many rows a condition matches among none or one.
abbrev pub hits : {A : Type 0} → (A → Bool) → Option A → ℕ
hits q none = 0
hits q (some r) = if q r then 1 else 0

module _ {A : Type 0} (key : A → Bytes) where
  pub find-key : (k : Bytes) (rows : List A) (r : A) → find key k rows ≡ some r → key r ≡ k
  unfolding find
  find-key k [] r h = cc
  find-key k (x ∷ rows) r h = ground (arith, bytes_eq_iff (key x) k, find-key k rows r)

  -- An update that keeps the keys maps what a lookup finds.
  pub find-update :
      (k : Bytes) (where_ : A → Bool) (set : A → A) (rows : List A)
      → ((r : A) → key (set r) ≡ key r)
      → find key k (update where_ set rows)
        ≡ Option.map (λ r. if where_ r then set r else r) (find key k rows)
  unfolding find update
  find-update k where_ set [] keep = refl
  find-update k where_ set (x ∷ rows) keep =
      ground (arith, keep x, find-update k where_ set rows keep)

  pub find-append :
      (k : Bytes) (rows : List A) (x : A)
      → find key k (rows ++ x ∷ []) ≡ (
          if is_there key k rows
          then find key k rows
          else (if bytes_eq (key x) k then some x else none))
  unfolding find
  find-append k [] x = refl
  find-append k (r ∷ rows) x = ground (arith, find-append k rows x)

  pub Unique-update :
      (where_ : A → Bool) (set : A → A) (rows : List A)
      → ((r : A) → key (set r) ≡ key r)
      → Unique key rows
      → Unique key (update where_ set rows)
  unfolding update
  Unique-update where_ set [] keep h = tt
  Unique-update where_ set (x ∷ rows) keep h =
      ground (
        arith,
        keep x,
        find-update (key x) where_ set rows keep,
        Unique-update where_ set rows keep,
      )

  pub Unique-append :
      (rows : List A) (x : A)
      → Unique key rows
      → is_there key (key x) rows ≡ false
      → Unique key (rows ++ x ∷ [])
  unfolding find
  Unique-append [] x h fresh = (refl, tt)
  Unique-append (r ∷ rows) x h fresh = ground (
    arith,
    find-append (key r) rows x,
    Unique-append rows x,
    bytes_eq_iff (key x) (key r),
    bytes_eq_iff (key r) (key x),
  )

  -- With a primary key, a condition that fixes the key matches the row of that key or nothing.
  pub count-key :
      (k : Bytes) (q : A → Bool) (rows : List A)
      → Unique key rows
      → count (λ r. bytes_eq (key r) k && q r) rows ≡ hits q (find key k rows)
  unfolding find
  count-key k q [] h = refl
  count-key k q (r ∷ rows) h = ground (
    arith,
    count-key k q rows,
    bytes_eq_iff (key r) k,
    ap (λ k. find key k rows) {x = key r} {y = k},
  )
