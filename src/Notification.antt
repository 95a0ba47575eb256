-- ===== src/Notification.antt =====
-- internal/notification/queue.go: SQS messages as hints. The client of the queue and the JSON
-- decoder are parameters.
pub mod Cycle
pub mod Messages
pub mod Config
use p3_relay.Prelude.{
  ℕ, suc, ◌+◌, Bool, true, false, ◌&&◌, not, Option, none, some, List, [], ◌∷◌, ◌++◌, Bytes, codes,
  length, ltb, leb, ◌==◌, if◌then◌else◌,
}
use p3_relay.Errors.{Error, Result, ok, err, queue}
use p3_relay.Decimal.{format_uint}
use p3_relay.Identifier.{valid_uuid}

abbrev pub batch_size : ℕ
batch_size = 10

abbrev pub maximum_body_bytes : ℕ
maximum_body_bytes = 1024

pub record Message : Type 0 where
  pub version : ℕ
  pub event_id : Bytes

-- A received message; a nil pointer is `none`.
pub record Item : Type 0 where
  pub body : Option Bytes
  pub receipt_handle : Option Bytes

-- The answer to a deletion: how many entries failed and how many succeeded.
pub record Deleted : Type 0 where
  pub failed : ℕ
  pub successful : ℕ

-- The AWS client: an error, or no result, is `none`.
pub record Client : Type 0 where
  pub send_message : Bytes → Option (Unit {0})
  pub receive_message : Option (List Item)
  pub delete_batch : List (Bytes × Bytes) → Option Deleted

-- The handles of the accepted messages, `batch.handles[:batch.count]`.
pub record Batch : Type 0 where
  pub handles : List Bytes

-- `json.Marshal` of a message whose identifier needs no escape.
unfoldable pub marshal : Message → Bytes
marshal m =
    b'{'
    ∷ b'"'
    ∷ (codes "version"
        ++ b'"'
          ∷ b':'
          ∷ (format_uint m.version
              ++ b','
                ∷ b'"'
                ∷ (codes "event_id" ++ b'"' ∷ b':' ∷ b'"' ∷ (m.event_id ++ b'"' ∷ b'}' ∷ []))))

-- What `Publish` leaves: its error, and the bodies that it gave to the client.
pub record Published : Type 0 where
  pub failure : Option Error
  pub bodies : List Bytes

-- The answer to `SendMessage`.
abbrev pub sending_error : Option (Unit {0}) → Option Error
sending_error none = some queue
sending_error (some _) = none

abbrev pub sent_message : Client → Bytes → Published
sent_message client body = record {
  failure = sending_error (client.send_message body);
  bodies = body ∷ [];
}

unfoldable pub publish : Client → Bytes → Published
unfolding marshal
publish client event_id =
    if not (valid_uuid event_id)
    then record { failure = some queue; bodies = [] }
    else sent_message client (marshal (record { version = 1; event_id = event_id }))

abbrev pub valid_value : Option Message → Bool
valid_value none = false
valid_value (some value) = value.version == 1 && valid_uuid value.event_id

abbrev pub handle_of : Option Bytes → List Bytes → List Bytes
handle_of none rest = rest
handle_of (some handle) rest = handle ∷ rest

-- `unmarshal` is `json.Unmarshal` into a message; `none` is its error.
module _ (unmarshal : Bytes → Option Message) where
  abbrev pub valid_parts : Option Bytes → Option Bytes → Bool
  valid_parts (some body) (some handle) =
      leb (length body) maximum_body_bytes
      && (not (length handle == 0) && (leb (length handle) 2048 && valid_value (unmarshal body)))
  valid_parts _ _ = false

  unfoldable pub valid_message : Item → Bool
  valid_message item = valid_parts item.body item.receipt_handle

  -- The loop over the messages: poison messages are passed over.
  unfoldable pub accepted_handles : List Item → List Bytes
  accepted_handles [] = []
  accepted_handles (item ∷ items) =
      let rest = accepted_handles items in
      if valid_message item then handle_of item.receipt_handle rest else rest

  abbrev pub received : Option (List Item) → Result Batch
  received none = err queue
  received (some items) =
      if ltb batch_size (length items)
      then err queue
      else ok (record { handles = accepted_handles items })

  unfoldable pub receive : Client → Result Batch
  receive client = received client.receive_message

-- The entries of the deletion, numbered from an index on.
unfoldable pub entries : ℕ → List Bytes → List (Bytes × Bytes)
entries index [] = []
entries index (handle ∷ rest) = (format_uint index, handle) ∷ entries (index + 1) rest

abbrev pub deletion_error : ℕ → Option Deleted → Option Error
deletion_error count none = some queue
deletion_error count (some d) =
    if ltb 0 d.failed then some queue else if not (d.successful == count) then some queue else none

-- What `Acknowledge` returns, or its panic on a batch past the bound.
pub data Acknowledged : Type 0 where
  returns : Option Error → Acknowledged
  panics : Acknowledged

unfoldable pub acknowledge : Client → Batch → Acknowledged
acknowledge client batch =
    let count = length batch.handles in
    if ltb batch_size count
    then panics
    else if count == 0
    then returns none
    else returns (deletion_error count (client.delete_batch (entries 0 batch.handles)))
