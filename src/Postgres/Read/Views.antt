-- ===== src/Postgres/Read/Views.antt =====
-- What the dashboard's answers say of the table.
use p3_relay.Prelude.{
  ℕ, ◌+◌, ◌≤◌, ◌≡◌, refl, ◌⊎◌, inl, inr, true, List, [], ◌∷◌, map, Bytes, bytes_eq, bytes_eq_iff,
  arith, subst, length, count, filter, take, All, All-take, length-take-le, Bool-cases,
}
use p3_relay.Errors.{ok, ok-injective, fine}
use p3_relay.Table.{order_by}
use p3_relay.Table.Rows.{All-order_by}
use p3_relay.Postgres.{Db, EventRow, pending, delivering, delivered, retry_scheduled, dead_lettered}
use p3_relay.Postgres.Read.{
  Overview, Summary, overview, tally, list, is_listed, summary_of, newest_first, state_name,
}

-- Each event of the source stands in exactly one count.
tally_total :
    (source_key : Bytes) (events : List EventRow)
    → tally source_key pending events
        + tally source_key delivering events
        + tally source_key delivered events
        + tally source_key retry_scheduled events
        + tally source_key dead_lettered events
      ≡ count (λ r. bytes_eq r.source_key source_key) events
tally_total source_key [] = refl
tally_total source_key (r ∷ events) = ground (arith, tally_total source_key events)

-- The overview's five counts add up to the number of the source's events.
pub overview_total :
    (db : Db) (source_key : Bytes) (o : Overview)
    → overview fine db source_key ≡ ok o
    → o.pending + o.delivering + o.delivered + o.retrying + o.dead_lettered
      ≡ count (λ r. bytes_eq r.source_key source_key) db.events
unfolding overview
overview_total db source_key o h = ground (arith, tally_total source_key db.events)

-- A listed event is the source's own, and in the state that was asked for, if one was.
abbrev pub IsOwn : Bytes → Bytes → Summary → Type 0
IsOwn source_key state s =
    (r : EventRow) × (s ≡ summary_of r)
    × (r.source_key ≡ source_key)
    × ((length state ≡ 0) ⊎ (state_name r.state ≡ state))

length-map : {A B : Type 0} (f : A → B) (xs : List A) → length (map f xs) ≡ length xs
length-map f [] = refl
length-map f (x ∷ xs) = omega (arith, length-map f xs)

owned :
    (source_key state : Bytes) (rows : List EventRow)
    → All (λ r. is_listed source_key state r ≡ true) rows
    → All (IsOwn source_key state) (map summary_of rows)
owned source_key state [] h = tt
owned source_key state (r ∷ rows) h = (
  (
    r,
    refl,
    ground (arith, bytes_eq_iff r.source_key source_key),
    ground (arith, bytes_eq_iff (state_name r.state) state),
  ),
  owned source_key state rows h.1,
)

All-filter_listed :
    (source_key state : Bytes) (events : List EventRow)
    → All (λ r. is_listed source_key state r ≡ true) (filter (is_listed source_key state) events)
All-filter_listed source_key state [] = tt
All-filter_listed source_key state (r ∷ events) = elim (Bool-cases (is_listed source_key state r)) [
  | inl e ↦ rw e (e, All-filter_listed source_key state events)
  | inr e ↦ rw e (All-filter_listed source_key state events)
]

abbrev matching : Db → Bytes → Bytes → List EventRow
matching db source_key state = order_by newest_first (filter (is_listed source_key state) db.events)

-- A listing is a page: at most `limit` events, each the source's own and in the asked state.
pub list-IsPage :
    (db : Db) (source_key state : Bytes) (limit : ℕ) (page : List Summary)
    → list fine db source_key state limit ≡ ok page
    → (length page ≤ limit) × All (IsOwn source_key state) page
unfolding list
list-IsPage db source_key state limit page h =
    subst (λ rows. (length rows ≤ limit) × All (IsOwn source_key state) rows) (ok-injective h)
      (
        omega (
          arith,
          length-map summary_of (take limit (matching db source_key state)),
          length-take-le limit (matching db source_key state),
        ),
        owned source_key state _ (
            All-take (λ r. is_listed source_key state r ≡ true) limit _
              (All-order_by (λ r. is_listed source_key state r ≡ true) newest_first _
                (All-filter_listed source_key state db.events))),
      )
