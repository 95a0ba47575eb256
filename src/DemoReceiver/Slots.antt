-- ===== src/DemoReceiver/Slots.antt =====
-- internal/demoreceiver/receiver.go: the requests in service at once.
use p3_relay.Prelude.{
  ℕ, ◌≤◌, ◌≡◌, none, [], ◌∷◌, ◌++◌, All, length, length-append, arith, ltb, Bool-cases,
  Option-cases, inl, inr,
}
use p3_relay.DemoReceiver.{Request, Slots, slots_max, screen, enter}

-- A request comes in, or one that was served gives its slot back.
pub data Step : Slots → Slots → Type 0 where
  arrives : {held : Slots} (now : ℕ) (request : Request) → Step held (enter now request held).1
  leaves :
      (earlier later : Slots) (request : Request)
      → Step (earlier ++ request ∷ later) (earlier ++ later)

pub data Reach : Slots → Type 0 where
  idle : Reach []
  next : {held held' : Slots} → Reach held → Step held held' → Reach held'

-- A request that passed the checks before the body.
abbrev pub IsScreened : Request → Type 0
IsScreened request = (now : ℕ) × (screen now request ≡ none)

pub record IsBounded (held : Slots) : Type 0 where
  pub few : length held ≤ 4
  pub screened : All IsScreened held

enter-IsBounded :
    (now : ℕ) (request : Request) (held : Slots)
    → IsBounded held
    → IsBounded (enter now request held).1
unfolding enter
enter-IsBounded now request held h = elim (Option-cases (screen now request)) [
  | inr (status, refused) ↦ rw refused h
  | inl passes ↦ elim (Bool-cases (ltb (length held) slots_max)) [
    | inl room ↦
        rw (passes, room) (record { few = ground arith; screened = ((now, passes), h.screened) })
    | inr full ↦ rw (passes, full) h
  ]
]

remove-All :
    (P : Request → Type 0) (earlier later : Slots) (r : Request)
    → All P (earlier ++ r ∷ later)
    → All P (earlier ++ later)
remove-All P [] later r h = h.1
remove-All P (x ∷ earlier) later r h = (h.0, remove-All P earlier later r h.1)

Step-IsBounded : {held held' : Slots} → Step held held' → IsBounded held → IsBounded held'
Step-IsBounded {held} (arrives now request) h = enter-IsBounded now request held h
Step-IsBounded (leaves earlier later request) h = record {
  few =
      let before = h.few in
      omega (arith, length-append earlier later, length-append earlier (request ∷ later));
  screened = remove-All IsScreened earlier later request h.screened;
}

-- Over every history of arriving and served requests, at most four are in service at once, each
-- of which has passed the checks on its method, its query and its headers.
pub Reach-IsBounded : {held : Slots} → Reach held → IsBounded held
Reach-IsBounded idle = record { few = omega arith; screened = tt }
Reach-IsBounded (next history step) = Step-IsBounded step (Reach-IsBounded history)
