-- ===== src/Netguard/Ranges.antt =====
-- internal/netguard/dialer.go: the ranges of refused addresses.
use p3_relay.Prelude.{ℕ, ◌+◌, ◌*◌, ◌^◌, ◌≤◌, ◌<◌, ◌≡◌, ◌↔◌, ◌⊎◌, true, false, arith}
use p3_relay.Netguard.{Addr, ipv4, ipv6, allowed}

-- The address with four octets.
abbrev pub octets : ℕ → ℕ → ℕ → ℕ → ℕ
octets a b c d = ((a * 256 + b) * 256 + c) * 256 + d

-- The refused IPv4 ranges, by their first and last address: unspecified, private, shared by
-- carriers, loopback, link-local, private, private, benchmarks, multicast, and broadcast.
abbrev pub Refused : ℕ → Type 0
Refused n =
    (n ≡ 0)
    ⊎ ((octets 10 0 0 0 ≤ n) × (n ≤ octets 10 255 255 255))
    ⊎ ((octets 100 64 0 0 ≤ n) × (n ≤ octets 100 127 255 255))
    ⊎ ((octets 127 0 0 0 ≤ n) × (n ≤ octets 127 255 255 255))
    ⊎ ((octets 169 254 0 0 ≤ n) × (n ≤ octets 169 254 255 255))
    ⊎ ((octets 172 16 0 0 ≤ n) × (n ≤ octets 172 31 255 255))
    ⊎ ((octets 192 168 0 0 ≤ n) × (n ≤ octets 192 168 255 255))
    ⊎ ((octets 198 18 0 0 ≤ n) × (n ≤ octets 198 19 255 255))
    ⊎ ((octets 224 0 0 0 ≤ n) × (n ≤ octets 239 255 255 255))
    ⊎ (n ≡ octets 255 255 255 255)

-- Unless private addresses are allowed, an IPv4 address is refused exactly when it is in one of
-- ten ranges.
pub allowed_exact : (n : ℕ) → n < 2 ^ 32 → (allowed false (ipv4 n) ≡ false) ↔ Refused n
unfolding allowed
allowed_exact n h = ground arith

-- The IPv6 address that stands for an IPv4 address.
abbrev pub mapped : ℕ → Addr
mapped n = ipv6 (0xffff * 2 ^ 32 + n)

-- Written as an IPv6 address, an IPv4 address of the ranges for carriers and benchmarks is let through,
-- though it is refused as an IPv4 address.
pub allowed-mapped :
    (n : ℕ)
    → ((octets 100 64 0 0 ≤ n) × (n ≤ octets 100 127 255 255))
      ⊎ ((octets 198 18 0 0 ≤ n) × (n ≤ octets 198 19 255 255))
    → (allowed false (ipv4 n) ≡ false) × (allowed false (mapped n) ≡ true)
unfolding allowed
allowed-mapped n h = ground arith
