-- ===== src/Sandbox/Store/Shares/Submitted.antt =====
-- internal/sandbox/store.go: a submission's event and its session's share.
use p3_relay.Prelude.{
  ℕ, ◌≤◌, ◌<◌, ◌≡◌, refl, inl, inr, Bool, true, false, ◌&&◌, some, List, [], ◌∷◌, ◌++◌, Bytes,
  bytes_eq, bytes_eq→eq, bytes_eq_iff, bytes_eq_refl, All-mono, All-append, All-zip, count, length,
  arith, subst, sym, ap, ◌∙◌, Bool-cases, Option-cases, ltb, if◌then◌else◌,
}
use p3_relay.Table.{find, update, is_there, Unique}
use p3_relay.Table.Laws.{find-update, Unique-update, count-key, hits, find-key}
use p3_relay.Table.Rows.{IsFound, Unique-IsFound, All-update}
use p3_relay.Postgres.{EventRow, SessionRow}
use p3_relay.Sandbox.{Budget, Tables}
use p3_relay.Sandbox.Store.{session_key}
use p3_relay.Sandbox.Store.Submission.{has_room, one_more, submitted, simulated_event}
use p3_relay.Sandbox.Store.Replay.{is_owner}
use p3_relay.Sandbox.Store.Shares.{IsWithin, IsShare, IsKnown, IsKnown-mono, owned, count-append}

length-update :
    (where_ : SessionRow → Bool) (set : SessionRow → SessionRow) (rows : List SessionRow)
    → length (update where_ set rows) ≡ length rows
unfolding update
length-update where_ set [] = refl
length-update where_ set (r ∷ rows) = omega (arith, length-update where_ set rows)

bytes_eq-swap : (a b : Bytes) → bytes_eq a b ≡ false → bytes_eq b a ≡ false
bytes_eq-swap a b h = ground (arith, bytes_eq_iff a b, bytes_eq_iff b a)

module _ (owner : Bytes) (clock : ℕ) (sessions : List SessionRow) (u : Unique session_key sessions)
    (one : count (has_room owner clock) sessions ≡ 1) where
  abbrev room : SessionRow → Bool
  room s = ltb clock s.expires_at && ltb s.event_count 20

  -- The session that is charged is the one of its key.
  charged_session :
      (s : SessionRow) × (find session_key owner sessions ≡ some s)
      × (has_room owner clock s ≡ true)
  charged_session =
      let counted : hits room (find session_key owner sessions) ≡ 1 =
        sym (count-key session_key owner room sessions u) ∙ one in
      elim (Option-cases (find session_key owner sessions)) [
        | inl absent ↦ absurd (ground arith)
        | inr (s, found) ↦
            let same = find-key session_key owner sessions s found in
            let fits : room s ≡ true = ground arith in
            (s, found, rw (same, bytes_eq_refl owner) fits)
      ]

  one_more-IsShare :
      (events : List EventRow) (r : EventRow)
      → r.sandbox_id ≡ some owner
      → (s : SessionRow) → IsFound session_key sessions s × IsShare events s
      → IsShare (events ++ r ∷ []) (if has_room owner clock s then one_more s else s)
  one_more-IsShare events r mine s (found, old) = elim (Bool-cases (bytes_eq s.id owner)) [
    | inr other ↦
        let apart : has_room owner clock s ≡ false = ground arith in
        let rest = count-append (λ x. is_owner s.id x.sandbox_id) events (r ∷ []) in
        let not_mine : is_owner s.id r.sandbox_id ≡ false =
          rw mine (bytes_eq-swap s.id owner other) in
        rw apart (ground (arith, old.0), old.1)
    | inl same ↦
        let (x, known, fits) = charged_session in
        let rows : some s ≡ some x =
          sym found ∙ ap (λ k. find session_key k sessions) (bytes_eq→eq s.id owner same) ∙ known in
        let one_ : x ≡ s = cc in
        let hit : has_room owner clock s ≡ true =
          subst (λ y. has_room owner clock y ≡ true) one_ fits in
        let rest = count-append (λ y. is_owner s.id y.sandbox_id) events (r ∷ []) in
        let few : s.event_count < 20 = ground arith in
        let at_most : owned s.id (r ∷ []) ≤ 1 = ground arith in
        rw hit (omega (arith, old.0), omega arith)
  ]

  is_there-charged :
      (k : Bytes)
      → is_there session_key k sessions ≡ true
      → is_there session_key k (update (has_room owner clock) one_more sessions) ≡ true
  is_there-charged k h =
      rw (find-update session_key k (has_room owner clock) one_more sessions (λ s. refl))
        (ground arith)

pub event_submitted :
    (sha256 : Bytes → Bytes) (clock : ℕ → ℕ) (owner scenario id : Bytes) (charged : Budget)
    (t : Tables)
    → count (has_room owner (clock 1)) t.db.sessions ≡ 1
    → charged.sessions ≤ 100
    → charged.admissions ≤ 1000
    → IsWithin t
    → IsWithin (submitted sha256 clock owner scenario id charged t)
event_submitted sha256 clock owner scenario id charged t one few spent h =
    let r = simulated_event sha256 owner scenario id (clock 3) in
    let where_ = has_room owner (clock 1) in
    let (s, found, _) = charged_session owner (clock 1) t.db.sessions h.unique one in
    let there : is_there session_key owner t.db.sessions ≡ true = rw found refl in
    record {
      charged = (charged, refl, few, spent);
      retained = omega (arith, h.retained, length-update where_ one_more t.db.sessions);
      unique = Unique-update session_key where_ one_more t.db.sessions (λ s. refl) h.unique;
      shares =
          All-update _ (IsShare (t.db.events ++ r ∷ [])) where_ one_more t.db.sessions
            (one_more-IsShare owner (clock 1) t.db.sessions h.unique one t.db.events r refl)
            (All-zip _ (IsShare t.db.events) t.db.sessions
              (Unique-IsFound session_key t.db.sessions h.unique) h.shares);
      known =
          All-append _ t.db.events (r ∷ [])
            (All-mono (IsKnown t.db.sessions) _ t.db.events
              (IsKnown-mono t.db.sessions _
                (is_there-charged owner (clock 1) t.db.sessions h.unique one))
              h.known)
            (is_there-charged owner (clock 1) t.db.sessions h.unique one owner there, tt);
    }
