-- ===== src/Notification/Messages.antt =====
-- internal/notification/queue.go: hints, the batches received, and their acknowledgement.
use p3_relay.Prelude.{
  ℕ, refl, ◌<◌, ◌++◌, ◌⊎◌, ◌↔◌, inl, inr, false, Bool-cases, codes, ◌+◌, ◌≤◌, ◌≡◌, ◌≢◌, true,
  Option, none, some, List, [], ◌∷◌, Bytes, length, length-append, arith,
}
use p3_relay.Errors.{ok, queue}
use p3_relay.Decimal.{digits, format_uint}
use p3_relay.Identifier.{valid_uuid}
use p3_relay.Notification.{
  Message, Item, Client, Batch, marshal, Published, publish, sending_error, valid_message,
  accepted_handles, received, receive, acknowledge, panics, batch_size,
}

abbrev pub quoted : Bytes → Bytes
quoted s = b'"' ∷ (s ++ b'"' ∷ [])

-- The text {"version":n,"event_id":"id"}.
abbrev pub object_text : ℕ → Bytes → Bytes
object_text version id =
    b'{'
    ∷ (quoted (codes "version")
        ++ b':'
          ∷ (format_uint version
              ++ b',' ∷ (quoted (codes "event_id") ++ b':' ∷ b'"' ∷ (id ++ b'"' ∷ b'}' ∷ []))))

-- What the program relies on of `json.Unmarshal`: an object's members are stored in the fields that
-- have their names as tags; here a number of one digit, and a text of hexadecimal digits and
-- dashes, which JSON does not escape.
abbrev pub ReadsObjects : (Bytes → Option Message) → Type 0
ReadsObjects unmarshal =
    (version : ℕ) (id : Bytes)
    → version < 10
    → valid_uuid id ≡ true
    → unmarshal (object_text version id) ≡ some (record { version = version; event_id = id })

pub uuid-length : (id : Bytes) → valid_uuid id ≡ true → length id ≡ 36
unfolding valid_uuid
uuid-length id h = ground arith

marshal-length :
    (id : Bytes) → length (marshal (record { version = 1; event_id = id })) ≡ length id + 27
unfolding marshal digits
marshal-length id = omega (arith, length-append {0} id (34 ∷ 125 ∷ []))

sending_error-none :
    (answer : Option (Unit {0})) → (sending_error answer ≡ none) ↔ (answer ≡ some tt)
sending_error-none none = (λ h. cc, λ h. cc)
sending_error-none (some tt) = (λ h. refl, λ h. refl)

-- What a publication hands to the queue: nothing for a text that is no identifier, and otherwise one
-- body, which is accepted behind a handle; it fails exactly if it was not sent.
abbrev pub IsPublished : (Bytes → Option Message) → Client → Bytes → Bytes → Published → Type 0
IsPublished unmarshal client id handle p =
    ((valid_uuid id ≡ false) × (p.bodies ≡ []) × (p.failure ≡ some queue))
    ⊎ ((body : Bytes) × (valid_uuid id ≡ true)
        × (p.bodies ≡ body ∷ [])
        × (valid_message unmarshal (record { body = some body; receipt_handle = some handle })
            ≡ true)
        × ((p.failure ≡ none) ↔ (client.send_message body ≡ some tt)))

-- Publish hands nothing to the queue for a text that is no identifier, and fails. For an identifier
-- it hands over one body, which is accepted where it is received, behind any handle of 1 to 2048
-- bytes, and it fails exactly if the queue does not take it; if the decoder stores the members
-- version and event_id of an object in the message's fields.
pub publish-accepted :
    (unmarshal : Bytes → Option Message) (client : Client) (id handle : Bytes)
    → ReadsObjects unmarshal
    → 1 ≤ length handle
    → length handle ≤ 2048
    → IsPublished unmarshal client id handle (publish client id)
unfolding publish marshal valid_message
publish-accepted unmarshal client id handle reads low high = elim (Bool-cases (valid_uuid id)) [
  | inr bad ↦ rw bad (inl (refl, refl, refl))
  | inl good ↦
      let read : unmarshal (marshal (record { version = 1; event_id = id }))
          ≡ some (record { version = 1; event_id = id }) =
        reads 1 id (omega arith) good in
      rw good (
        inr (
          marshal (record { version = 1; event_id = id }),
          refl,
          refl,
          ground (arith, marshal-length id, uuid-length id good, read, good),
          sending_error-none (client.send_message _),
        ))
]

accepted-length :
    (unmarshal : Bytes → Option Message) (items : List Item)
    → length (accepted_handles unmarshal items) ≤ length items
unfolding accepted_handles
accepted-length unmarshal [] = omega arith
accepted-length unmarshal (item ∷ items) = ground (arith, accepted-length unmarshal items)

received-length :
    (unmarshal : Bytes → Option Message) (answer : Option (List Item)) (batch : Batch)
    → received unmarshal answer ≡ ok batch
    → length batch.handles ≤ batch_size
received-length unmarshal none batch h = cc
received-length unmarshal (some items) batch h = ground (arith, accepted-length unmarshal items)

-- A batch that was received holds at most ten handles, and acknowledging it never panics.
pub receive-acknowledge :
    (unmarshal : Bytes → Option Message) (client : Client) (batch : Batch)
    → receive unmarshal client ≡ ok batch
    → (length batch.handles ≤ batch_size) × (acknowledge client batch ≢ panics)
unfolding receive acknowledge
receive-acknowledge unmarshal client batch h =
    let few = received-length unmarshal client.receive_message batch h in (few, ground arith)
