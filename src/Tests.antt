-- ===== src/Tests.antt =====
-- The theorems at concrete inputs, and the data that they share.
mod Wire
mod Sending
mod Stores
mod Systems
mod Ingress
mod Edges
mod Visits
mod Services
mod Histories
mod Processes
use p3_relay.Prelude.{ℕ, zero, suc, List, [], ◌∷◌, Bytes, codes, arith, length, All}
use p3_relay.Hex.Laws.{IsByte}
use p3_relay.Signature.{Hmac}
use p3_relay.Postgres.Store.{Receipt}

abbrev pub zeros : ℕ → Bytes
zeros zero = []
zeros (suc n) = 0 ∷ zeros n

pub zeros-IsByte : (n : ℕ) → All IsByte (zeros n)
zeros-IsByte zero = tt
zeros-IsByte (suc n) = (omega arith, zeros-IsByte n)

-- A digest of the right length, the same for every message.
abbrev pub constant_hmac : Hmac
constant_hmac = record {
  digest = λ secret message. zeros 32;
  digest_length = λ secret message. omega arith;
  digest_bytes = λ secret message. zeros-IsByte 32;
}

abbrev pub constant_sha256 : Bytes → Bytes
constant_sha256 content = zeros 32

abbrev pub event_id : Bytes
event_id = codes "11111111-1111-4111-8111-111111111111"

abbrev pub other_id : Bytes
other_id = codes "22222222-2222-4222-8222-222222222222"

abbrev pub demo_receipt : Receipt
demo_receipt = record {
  id = event_id;
  source_key = codes "demo";
  external_event_id = codes "order-1";
  body = codes "[]";
  body_sha256 = zeros 32;
  destination_url = codes "https://receiver.test/hook";
}
