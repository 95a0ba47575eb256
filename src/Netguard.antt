-- ===== src/Netguard.antt =====
-- internal/netguard/dialer.go: connections to resolved destinations, with private and special
-- addresses refused. An address of `net/netip` is its number; the resolver, the splitting of an
-- address and the network are parameters.
pub mod Ranges
pub mod Dialed
use p3_relay.Prelude.{
  ℕ, ◌+◌, ◌*◌, ◌/◌, ◌%◌, ◌^◌, Bool, true, false, ◌&&◌, ◌||◌, not, Option, none, some, List, [], ◌∷◌,
  Bytes, length, ltb, leb, ◌==◌, if◌then◌else◌,
}
use p3_relay.Errors.{Error, Result, ok, err, failed}

-- `netip.Addr`: its zero value, or the 32 or 128 bits of an address.
pub data Addr : Type 0 where
  invalid : Addr
  ipv4 : ℕ → Addr
  ipv6 : ℕ → Addr

-- `Unmap`: the IPv4 address that an address of `::ffff:0:0/96` stands for.
abbrev pub unmap : Addr → Addr
unmap (ipv6 n) = if n / 2 ^ 32 == 0xffff then ipv4 (n % 2 ^ 32) else ipv6 n
unmap a = a

abbrev pub first_octet : ℕ → ℕ
first_octet n = n / 2 ^ 24

abbrev pub top_16 : ℕ → ℕ
top_16 n = n / 2 ^ 112

-- The tests of `net/netip`; each looks at the unmapped address.
abbrev pub is_loopback : Addr → Bool
is_loopback invalid = false
is_loopback (ipv4 n) = first_octet n == 127
is_loopback (ipv6 n) = n == 1

abbrev pub is_multicast : Addr → Bool
is_multicast invalid = false
is_multicast (ipv4 n) = n / 2 ^ 28 == 14
is_multicast (ipv6 n) = n / 2 ^ 120 == 0xff

abbrev pub is_link_local_unicast : Addr → Bool
is_link_local_unicast invalid = false
is_link_local_unicast (ipv4 n) = n / 2 ^ 16 == 169 * 256 + 254
is_link_local_unicast (ipv6 n) = n / 2 ^ 118 == 0xfe80 / 64

abbrev pub is_private : Addr → Bool
is_private invalid = false
is_private (ipv4 n) =
    first_octet n == 10 || (n / 2 ^ 20 == 172 * 16 + 1 || n / 2 ^ 16 == 192 * 256 + 168)
is_private (ipv6 n) = n / 2 ^ 121 == 0xfc / 2

abbrev pub is_unspecified : Addr → Bool
is_unspecified invalid = false
is_unspecified (ipv4 n) = n == 0 || n == 0xffffffff
is_unspecified (ipv6 n) = n == 0

abbrev pub is_valid : Addr → Bool
is_valid invalid = false
is_valid _ = true

abbrev pub is_global_unicast : Addr → Bool
is_global_unicast a =
    is_valid a
    && (not (is_unspecified a)
        && (not (is_loopback a) && (not (is_multicast a) && not (is_link_local_unicast a))))

-- `Prefix.Contains` of an IPv4 prefix: the bits of its address, and how many are free. An IPv6
-- address is in no IPv4 prefix, also one that stands for an IPv4 address.
abbrev pub contains : ℕ → ℕ → Addr → Bool
contains first size (ipv4 n) = n / size == first / size
contains first size _ = false

-- 100.64.0.0/10 and 198.18.0.0/15.
abbrev pub carrier_nat : Addr → Bool
carrier_nat = contains (100 * 2 ^ 24 + 64 * 2 ^ 16) (2 ^ 22)

abbrev pub benchmark : Addr → Bool
benchmark = contains (198 * 2 ^ 24 + 18 * 2 ^ 16) (2 ^ 17)

unfoldable pub allowed : Bool → Addr → Bool
allowed allow_private address =
    if allow_private
    then true
    else if not (is_valid address) || not (is_global_unicast (unmap address))
    then false
    else if is_private (unmap address)
        || (is_loopback (unmap address) || is_link_local_unicast (unmap address))
    then false
    else if carrier_nat address
    then false
    else not (benchmark address)

-- `for … { if !dialer.allowed(…) { return error } }`.
unfoldable pub all_allowed : Bool → List Addr → Bool
all_allowed allow_private [] = true
all_allowed allow_private (a ∷ rest) =
    let others = all_allowed allow_private rest in if allowed allow_private a then others else false

-- The connection, and the addresses dialled in their order.
pub record Dialing (C : Type 0) : Type 0 where
  pub result : Result C
  pub dialed : List Addr

abbrev pub dialing : {C : Type 0} → Addr → Dialing C → Option C → Dialing C
dialing a later none = record { result = later.result; dialed = a ∷ later.dialed }
dialing a later (some c) = record { result = ok c; dialed = a ∷ [] }

module _ {C : Type 0} (connect : Addr → Option C) where
  -- The loop over the addresses: the first connection that is made.
  unfoldable pub dial_each : List Addr → Dialing C
  dial_each [] = record { result = err (failed "dial"); dialed = [] }
  dial_each (a ∷ rest) = dialing a (dial_each rest) (connect a)

abbrev pub maximum_resolved_addresses : ℕ
maximum_resolved_addresses = 16

abbrev pub not_dialed : {C : Type 0} → Error → Dialing C
not_dialed e = record { result = err e; dialed = [] }

module _ {C : Type 0} (allow_private : Bool) (connect : Bytes → Addr → Option C) where
  abbrev pub resolved : Bytes → Option (List Addr) → Dialing C
  resolved port none = not_dialed (failed "resolve destination")
  resolved port (some addresses) =
      if length addresses == 0 || ltb maximum_resolved_addresses (length addresses)
      then not_dialed (failed "destination resolved to an invalid address count")
      else if not (all_allowed allow_private addresses)
      then not_dialed (failed "destination resolved to a prohibited address")
      else dial_each (connect port) addresses

  -- `DialContext` behind `SplitHostPort`, which gives a host and a port or an error.
  unfoldable pub dial_context : (Bytes → Option (List Addr)) → Option (Bytes × Bytes) → Dialing C
  dial_context lookup none = not_dialed (failed "split destination address")
  dial_context lookup (some (host, port)) = resolved port (lookup host)
