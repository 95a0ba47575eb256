-- ===== src/Netguard/Dialed.antt =====
-- internal/netguard/dialer.go: the addresses that are dialled.
use p3_relay.Prelude.{
  ◌≤◌, ◌≡◌, refl, Bool, true, Option, none, some, List, [], ◌∷◌, Bytes, All, length, arith,
  Option-cases, inl, inr, ◌⊎◌, ◌++◌, ap,
}
use p3_relay.Netguard.{Addr, allowed, all_allowed, dial_each, resolved, dial_context}

all_allowed-All :
    (allow_private : Bool) (addresses : List Addr)
    → all_allowed allow_private addresses ≡ true
    → All (λ a. allowed allow_private a ≡ true) addresses
unfolding all_allowed
all_allowed-All allow_private [] h = tt
all_allowed-All allow_private (a ∷ rest) h =
    (ground arith, all_allowed-All allow_private rest (ground arith))

-- Each dialled address is one that the resolver gave and that is let through.
pub record IsGuarded (allow_private : Bool) (addresses dialed : List Addr) : Type 0 where
  pub each_allowed : All (λ a. allowed allow_private a ≡ true) dialed
  pub no_more : (rest : List Addr) × (addresses ≡ dialed ++ rest)

module _ {C : Type 0} (connect : Addr → Option C) (allow_private : Bool) where
  dial_each-IsGuarded :
      (addresses : List Addr)
      → all_allowed allow_private addresses ≡ true
      → IsGuarded allow_private addresses (dial_each connect addresses).dialed
  unfolding dial_each all_allowed
  dial_each-IsGuarded [] h = record { each_allowed = tt; no_more = ([], refl) }
  dial_each-IsGuarded (a ∷ rest) h =
      let later = dial_each-IsGuarded rest (ground arith) in
      let (left, e) = later.no_more in
      elim (Option-cases (connect a)) [
        | inl fails ↦ rw fails (record {
          each_allowed = (ground arith, later.each_allowed);
          no_more = (left, ap (λ l. a ∷ l) e);
        })
        | inr (c, made) ↦
            rw made (record { each_allowed = (ground arith, tt); no_more = (rest, refl) })
      ]

resolved-dialed :
    {C : Type 0} (allow_private : Bool) (connect : Bytes → Addr → Option C) (port : Bytes)
    (addresses : List Addr)
    → let dialed = (resolved allow_private connect port (some addresses)).dialed in
      (dialed ≡ [])
      ⊎ ((length addresses ≤ 16)
          × (all_allowed allow_private addresses ≡ true)
          × (dialed ≡ (dial_each (connect port) addresses).dialed))
resolved-dialed allow_private connect port addresses = ground arith

-- The dialer connects only to addresses that are let through: it dials a first part of the
-- resolver's list, of at most sixteen addresses, and nothing at all if one of the list is refused.
pub dial_context-IsGuarded :
    {C : Type 0} (allow_private : Bool) (connect : Bytes → Addr → Option C)
    (lookup : Bytes → Option (List Addr)) (target : Option (Bytes × Bytes))
    → let dialed = (dial_context allow_private connect lookup target).dialed in
      (dialed ≡ [])
      ⊎ ((host port : Bytes) × (addresses : List Addr) × (target ≡ some (host, port))
          × (lookup host ≡ some addresses)
          × (length addresses ≤ 16)
          × All (λ a. allowed allow_private a ≡ true) addresses
          × IsGuarded allow_private addresses dialed)
unfolding dial_context
dial_context-IsGuarded allow_private connect lookup none = inl refl
dial_context-IsGuarded allow_private connect lookup (some (host, port)) =
    elim (Option-cases (lookup host)) [
      | inl failed ↦ inl (rw failed refl)
      | inr (addresses, found) ↦ elim (resolved-dialed allow_private connect port addresses) [
        | inl nothing ↦ inl (rw found nothing)
        | inr (few, good, same) ↦ inr (
          host,
          port,
          addresses,
          refl,
          found,
          few,
          all_allowed-All allow_private addresses good,
          rw (found, same) (dial_each-IsGuarded (connect port) allow_private addresses good),
        )
      ]
    ]
