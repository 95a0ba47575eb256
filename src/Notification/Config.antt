-- ===== src/Notification/Config.antt =====
-- internal/notification/config.go: the checks before a configured queue is used. The URL parser, the
-- JSON decoder and the queue's attributes are parameters; the AWS client that `Open` makes is not
-- modelled.
pub mod Checks
pub mod Open
pub mod Opened
use p3_relay.Prelude.{
  ℕ, zero, suc, Bool, true, false, ◌&&◌, ◌||◌, not, Option, none, some, List, [], ◌∷◌, ◌++◌, Bytes,
  codes, bytes_eq, has_prefix, length, drop, leb, split, ◌==◌, if◌then◌else◌, String,
}
use p3_relay.Errors.{Result, ok, err, queue, ensure, ◌>>=◌, ◌>>◌}

pub record Url : Type 0 where
  pub scheme : Bytes
  pub host : Bytes
  pub has_user : Bool
  pub raw_query : Bytes
  pub fragment : Bytes
  pub raw_path : Bytes
  pub path : Bytes

abbrev pub is_lower : ℕ → Bool
is_lower c = leb b'a' c && leb c b'z'

abbrev pub is_number : ℕ → Bool
is_number c = leb b'0' c && leb c b'9'

abbrev pub is_name_character : ℕ → Bool
is_name_character c =
    is_lower c || (is_number c || ((leb b'A' c && leb c b'Z') || (c == b'_' || c == b'-')))

unfoldable pub each_character : (ℕ → Bool) → Bytes → Bool
each_character test [] = true
each_character test (c ∷ s) = test c && each_character test s

abbrev pub is_zone : Bytes → Bool
is_zone (c ∷ []) = leb b'1' c && leb c b'9'
is_zone _ = false

-- `^[a-z]{2}-[a-z]+-[1-9]$`.
unfoldable pub region_parts : List Bytes → Bool
region_parts (land ∷ place ∷ zone ∷ []) =
    (length land == 2 && each_character is_lower land)
    && ((leb 1 (length place) && each_character is_lower place) && is_zone zone)
region_parts _ = false

abbrev pub region_matches : Bytes → Bool
region_matches region = region_parts (split b'-' region)

abbrev pub is_account : Bytes → Bool
is_account s = length s == 12 && each_character is_number s

abbrev pub is_queue_name : Bytes → Bool
is_queue_name s = (leb 1 (length s) && leb (length s) 80) && each_character is_name_character s

-- `^/[0-9]{12}/[A-Za-z0-9_-]{1,80}$`.
unfoldable pub path_parts : List Bytes → Bool
path_parts ([] ∷ account ∷ name ∷ []) = is_account account && is_queue_name name
path_parts _ = false

abbrev pub path_matches : Bytes → Bool
path_matches path = path_parts (split b'/' path)

abbrev pub host_of : Bytes → Bytes
host_of region = codes "sqs." ++ (region ++ codes ".amazonaws.com")

abbrev pub is_queue_url : Bytes → Option Url → Bool
is_queue_url region none = false
is_queue_url region (some u) =
    bytes_eq u.scheme (codes "https")
    && (bytes_eq u.host (host_of region)
        && (not u.has_user
            && (length u.raw_query == 0
                && (length u.fragment == 0 && (length u.raw_path == 0 && path_matches u.path)))))

-- `validURL`, of what the URL parser gives.
unfoldable pub valid_url : Option Url → Bytes → Bool
valid_url parsed region = if region_matches region then is_queue_url region parsed else false

-- The attributes of a queue, a missing one being empty, and its decoded redrive policy: the
-- dead-letter queue's name and the number of receptions.
pub record Attributes : Type 0 where
  pub get : Bytes → Bytes
  pub redrive : Option (Bytes × Bytes)

abbrev pub attribute_is : Attributes → String → String → Bool
attribute_is attributes name value = bytes_eq (attributes.get (codes name)) (codes value)

abbrev pub attributes_fit : Attributes → Bool
attributes_fit attributes =
    (attribute_is attributes "VisibilityTimeout" "300"
      && attribute_is attributes "MaximumMessageSize" "1024")
    && ((attribute_is attributes "ReceiveMessageWaitTimeSeconds" "10"
          && attribute_is attributes "MessageRetentionPeriod" "86400")
        && (attribute_is attributes "SqsManagedSseEnabled" "true"
            && not (attribute_is attributes "FifoQueue" "true")))

abbrev pub arn_prefix : Bytes → Bytes → Bytes
arn_prefix region account = codes "arn:aws:sqs:" ++ (region ++ b':' ∷ (account ++ b':' ∷ []))

-- The dead-letter queue: another queue of the same account and region.
unfoldable pub distinct_target : Bytes → Bytes → Bytes → Bytes → Bool
distinct_target region account name target =
    has_prefix target (arn_prefix region account)
    && (not (bytes_eq (drop (length (arn_prefix region account)) target) name)
        && path_matches
            (b'/' ∷ (account ++ b'/' ∷ drop (length (arn_prefix region account)) target)))

-- `none` is the panic of an index out of range, where the host has no second part.
abbrev pub target_checked : List Bytes → List Bytes → Bytes → Option (Result (Unit {0}))
target_checked (account ∷ name ∷ []) (service ∷ region ∷ rest) target =
    some (ensure (distinct_target region account name target) queue)
target_checked (account ∷ name ∷ []) _ target = none
target_checked _ _ target = some (err queue)

abbrev pub trimmed : Bytes → Bytes
trimmed (c ∷ s) = if c == b'/' then s else c ∷ s
trimmed [] = []

abbrev pub redrive_checked : Option Url → Option (Bytes × Bytes) → Option (Result (Unit {0}))
redrive_checked parsed none = some (err queue)
redrive_checked none (some (target, receptions)) = some (err queue)
redrive_checked (some u) (some (target, receptions)) =
    if bytes_eq receptions (codes "5")
    then target_checked (split b'/' (trimmed u.path)) (split b'.' u.host) target
    else some (err queue)

-- `Check`, of the attributes that the queue gave, if it did.
unfoldable pub check : Option Url → Option Attributes → Option (Result (Unit {0}))
check parsed none = some (err queue)
check parsed (some attributes) =
    if attributes_fit attributes
    then redrive_checked parsed attributes.redrive
    else some (err queue)
