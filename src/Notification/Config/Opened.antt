-- ===== src/Notification/Config/Opened.antt =====
-- internal/notification/config.go: the outcomes of `Open`.
use p3_relay.Prelude.{
  ◌≡◌, refl, ◌⊎◌, inl, inr, true, false, Option, none, some, [], ◌∷◌, Bytes, codes, bytes_eq,
  length, ◌==◌, arith, Bool-cases, ◌&&◌, bytes_eq→eq,
}
use p3_relay.Errors.{Result, ok, err, queue}
use p3_relay.Notification.Config.{Url, Attributes, valid_url, check}
use p3_relay.Notification.Config.Checks.{IsChecked, check-IsChecked}
use p3_relay.Notification.Config.Open.{
  Aws, Queue, open_queue, new, endpoint_of, transport, if_checked,
}

-- A queue that may be used: its URL is one of the region's queues, it is asked at the region's own
-- endpoint, and its attributes were checked.
pub record IsOpened (aws : Aws) (queue_url region : Bytes) (q : Queue) : Type 0 where
  pub named : q.url ≡ queue_url
  pub pinned : q.endpoint ≡ endpoint_of region
  pub parsed : Url
  pub parses : aws.parse_url queue_url ≡ some parsed
  pub valid : valid_url (some parsed) region ≡ true
  pub attributes : Attributes
  pub given : aws.attributes q ≡ some attributes
  pub checked : IsChecked parsed attributes

-- `url.Parse` finds no scheme in an empty text.
abbrev pub ParsesEmpty : Aws → Type 0
ParsesEmpty aws = (u : Url) → aws.parse_url [] ≡ some u → u.scheme ≡ []

abbrev pub Opens : Aws → Bytes → Bytes → Option (Result (Option Queue)) → Type 0
Opens aws queue_url region outcome =
    (outcome ≡ some (err queue))
    ⊎ (((outcome ≡ some (ok none)) × (length queue_url ≡ 0) × (length region ≡ 0))
        ⊎ ((q : Queue) × (outcome ≡ some (ok (some q))) × IsOpened aws queue_url region q))

valid_url-parsed :
    (parsed : Option Url) (region : Bytes)
    → valid_url parsed region ≡ true
    → (u : Url) × (parsed ≡ some u) × (bytes_eq u.scheme (codes "https") ≡ true)
unfolding valid_url
valid_url-parsed none region h = ground arith
valid_url-parsed (some u) region h = (u, refl, ground arith)

not_empty :
    (aws : Aws) (queue_url : Bytes) (u : Url)
    → ParsesEmpty aws
    → aws.parse_url queue_url ≡ some u
    → bytes_eq u.scheme (codes "https") ≡ true
    → (length queue_url == 0) ≡ false
not_empty aws [] u empty parses https =
    let scheme = empty u parses in let https' = bytes_eq→eq u.scheme (codes "https") https in cc
not_empty aws (c ∷ s) u empty parses https = ground arith

module _ (aws : Aws) (queue_url region : Bytes) where
  abbrev made : Queue
  made = record { url = queue_url; endpoint = endpoint_of region; client = transport }

  asked-Opens :
      (u : Url) (found : Option Attributes)
      → aws.parse_url queue_url ≡ some u
      → valid_url (some u) region ≡ true
      → aws.attributes made ≡ found
      → Opens aws queue_url region (if_checked made (check (some u) found))
  unfolding check
  asked-Opens u none parses valid e = inl refl
  asked-Opens u (some a) parses valid e = elim (check-IsChecked u region a valid) [
    | inl bad ↦ inl (rw bad refl)
    | inr (good, checked) ↦ inr (
        inr (
          made,
          rw good refl,
          record {
            named = refl;
            pinned = refl;
            parsed = u;
            parses = parses;
            valid = valid;
            attributes = a;
            given = e;
            checked = checked;
          },
        ))
  ]

  pub open_queue-Opens :
      ParsesEmpty aws → Opens aws queue_url region (open_queue aws queue_url region)
  unfolding open_queue new
  open_queue-Opens empty = elim (Bool-cases (length queue_url == 0 && length region == 0)) [
    | inl unset ↦ rw unset (inr (inl (refl, ground arith, ground arith)))
    | inr set ↦ elim (Bool-cases (valid_url (aws.parse_url queue_url) region)) [
      | inr bad ↦ rw (set, bad) (inl refl)
      | inl good ↦
          let (u, parses, https) = valid_url-parsed (aws.parse_url queue_url) region good in
          let valid : valid_url (some u) region ≡ true = rw parses at good in
          elim (Bool-cases (aws.loads region transport)) [
            | inr absent ↦ rw (set, good, absent) (inl refl)
            | inl loaded ↦
                let named = not_empty aws queue_url u empty parses https in
                rw (set, good, loaded, named)
                  (rw parses (asked-Opens u (aws.attributes made) parses valid refl))
          ]
    ]
  ]
