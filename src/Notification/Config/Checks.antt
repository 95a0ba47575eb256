-- ===== src/Notification/Config/Checks.antt =====
-- internal/notification/config.go: the outcomes of `Check`.
use p3_relay.Prelude.{
  ℕ, ◌≡◌, refl, ◌≢◌, ◌⊎◌, inl, inr, true, Option, some, List, [], ◌∷◌, ◌++◌, Bytes, codes, bytes_eq,
  bytes_eq→eq, bytes_eq_iff, first_part, ◌==◌, has_prefix, drop, length, split, arith, Bool-cases,
  Option-cases, ap, ◌∙◌,
}
use p3_relay.Errors.{Result, ok, err, queue}
use p3_relay.Notification.Config.{
  Url, Attributes, attributes_fit, arn_prefix, valid_url, host_of, check, target_checked,
  distinct_target, trimmed,
}

first_part-ne-nil : (c : ℕ) (parts : List Bytes) → first_part c parts ≢ []
first_part-ne-nil c [] h = cc
first_part-ne-nil c (part ∷ parts) h = cc

split-ne-nil : (separator : ℕ) (s : Bytes) → split separator s ≢ []
unfolding split
split-ne-nil separator [] h = cc
split-ne-nil separator (c ∷ s) h = elim (Bool-cases (c == separator)) [
  | inl cut ↦ let e : [] ∷ split separator s ≡ [] = rw (cut, split) at h in cc
  | inr on ↦ first_part-ne-nil c (split separator s) (rw (on, split) at h)
]

-- A dead-letter queue of the same account and region that is not the queue itself.
pub record IsRedriven (u : Url) (target : Bytes) : Type 0 where
  pub account : Bytes
  pub name : Bytes
  pub region : Bytes
  pub rest : List Bytes
  pub located : split b'/' (trimmed u.path) ≡ account ∷ name ∷ []
  pub hosted : split b'.' u.host ≡ codes "sqs" ∷ region ∷ rest
  pub placed : has_prefix target (arn_prefix region account) ≡ true
  pub distinct : drop (length (arn_prefix region account)) target ≢ name

pub record IsChecked (u : Url) (a : Attributes) : Type 0 where
  pub fits : attributes_fit a ≡ true
  pub target : Bytes
  pub redriven : a.redrive ≡ some (target, codes "5")
  pub elsewhere : IsRedriven u target

-- A check's outcome: an error, or success with what it found.
abbrev Settles : Option (Result (Unit {0})) → Type 0 → Type 0
Settles outcome P = (outcome ≡ some (err queue)) ⊎ ((outcome ≡ some (ok tt)) × P)

placed_of :
    (region account name target : Bytes)
    → distinct_target region account name target ≡ true
    → has_prefix target (arn_prefix region account) ≡ true
unfolding distinct_target
placed_of region account name target apart = ground arith

distinct_of :
    (region account name target : Bytes)
    → distinct_target region account name target ≡ true
    → drop (length (arn_prefix region account)) target ≢ name
unfolding distinct_target
distinct_of region account name target apart e =
    let same = (bytes_eq_iff (drop (length (arn_prefix region account)) target) name).1 e in
    absurd (ground arith)

module _ (u : Url) (target : Bytes) where
  target-Settles :
      (parts others : List Bytes)
      → split b'/' (trimmed u.path) ≡ parts
      → split b'.' u.host ≡ codes "sqs" ∷ others
      → others ≢ []
      → Settles (target_checked parts (codes "sqs" ∷ others) target) (IsRedriven u target)
  target-Settles [] others p h full = inl refl
  target-Settles (account ∷ []) others p h full = inl refl
  target-Settles (account ∷ name ∷ more ∷ rest) others p h full = inl refl
  target-Settles (account ∷ name ∷ []) [] p h full = absurd (full refl)
  target-Settles (account ∷ name ∷ []) (region ∷ rest) p h full =
      elim (Bool-cases (distinct_target region account name target)) [
        | inr same ↦ inl (rw same refl)
        | inl apart ↦ inr (
          rw apart refl,
          record {
            account = account;
            name = name;
            region = region;
            rest = rest;
            located = p;
            hosted = h;
            placed = placed_of region account name target apart;
            distinct = distinct_of region account name target apart;
          },
        )
      ]

split_host :
    (region : Bytes)
    → split b'.' (host_of region) ≡ codes "sqs" ∷ split b'.' (region ++ codes ".amazonaws.com")
unfolding split
split_host region = refl

host-sqs :
    (u : Url) (region : Bytes)
    → valid_url (some u) region ≡ true
    → split b'.' u.host ≡ codes "sqs" ∷ split b'.' (region ++ codes ".amazonaws.com")
unfolding valid_url
host-sqs u region h =
    let same : bytes_eq u.host (host_of region) ≡ true = ground arith in
    ap (split b'.') (bytes_eq→eq u.host (host_of region) same) ∙ split_host region

-- The check of a queue with a valid URL never panics. It succeeds only for a queue with exactly the
-- contract's attributes, whose five receptions lead to another queue of the same account and region.
pub check-IsChecked :
    (u : Url) (region : Bytes) (a : Attributes)
    → valid_url (some u) region ≡ true
    → (check (some u) (some a) ≡ some (err queue))
      ⊎ ((check (some u) (some a) ≡ some (ok tt)) × IsChecked u a)
unfolding check
check-IsChecked u region a h = elim (Bool-cases (attributes_fit a)) [
  | inr bad ↦ inl (rw bad refl)
  | inl fits ↦ elim (Option-cases a.redrive) [
    | inl absent ↦ inl (rw (fits, absent) refl)
    | inr ((target, receptions), given) ↦ elim (Bool-cases (bytes_eq receptions (codes "5"))) [
      | inr other ↦ inl (rw (fits, given, other) refl)
      | inl five ↦
          let hosted = host-sqs u region h in
          elim (target-Settles u target _ _ refl hosted (split-ne-nil b'.' _)) [
            | inl bad ↦ inl (rw (fits, given, five, hosted) bad)
            | inr (good, elsewhere) ↦ inr (
              rw (fits, given, five, hosted) good,
              record {
                fits = fits;
                target = target;
                redriven =
                    given ∙ ap (λ r. some (target, r)) (bytes_eq→eq receptions (codes "5") five);
                elsewhere = elsewhere;
              },
            )
          ]
    ]
  ]
]
