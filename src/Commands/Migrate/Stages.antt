-- ===== src/Commands/Migrate/Stages.antt =====
-- cmd/migrate/main.go: the schemas that the migrations leave.
use p3_relay.Prelude.{
  ◌≡◌, refl, inl, inr, Bool, true, false, none, some, [], ◌∷◌, length, ◌==◌, ◌&&◌, not, arith,
  Bool-cases, subst, sym,
}
use p3_relay.Errors.{Error, Result, ok, err, failed, Reply, fine, refused, lost}
use p3_relay.Postgres.Tls.{ConnConfig}
use p3_relay.Postgres.Queue.{is_fine}
use p3_relay.Commands.{pending_paths}
use p3_relay.Commands.Startup.{Process, variable}
use p3_relay.Commands.Migrate.{
  Schema, Run, run_file, run_files, transaction, latest, has_version, committed, connected, migrate,
  open_connection,
}

abbrev pub complete : Schema
complete = some (1 ∷ 2 ∷ [])

-- The schemas that the two migrations leave, one after the other.
pub data IsStage : Schema → Type 0 where
  nothing : IsStage none
  first_only : IsStage (some (1 ∷ []))
  both : IsStage complete

transaction-complete :
    (run : Run) (before after : Schema)
    → IsStage before
    → transaction run before ≡ ok after
    → after ≡ complete
unfolding transaction pending_paths run_files run_file latest has_version
transaction-complete run before after nothing h = ground arith
transaction-complete run before after first_only h = ground arith
transaction-complete run before after both h = ground arith

abbrev is_ok : {A : Type 0} → Result A → Bool
is_ok (ok a) = true
is_ok (err e) = false

-- Whether nothing fails: the URL is set, the connection opens, and each call that may fail succeeds.
abbrev pub is_smooth : Process → Run → Bool
is_smooth process run =
    not (length (variable process "RELAY_DATABASE_URL") == 0)
    && is_ok (open_connection process run)
    && (run.begins && run.locks && run.finds_table && run.reads_version)
    && (run.reads_file 1 && run.runs_file 1 && run.reads_file 2 && run.runs_file 2)
    && is_fine run.commit

transaction-smooth :
    (process : Process) (run : Run) (before : Schema)
    → IsStage before
    → is_smooth process run ≡ true
    → transaction run before ≡ ok complete
unfolding transaction pending_paths run_files run_file latest has_version
transaction-smooth process run before nothing h = ground arith
transaction-smooth process run before first_only h = ground arith
transaction-smooth process run before both h = ground arith

-- How a run of the command may end: with both migrations in place; or, if something failed, with an
-- error, and the schema as it was or with both.
pub data Ends (smooth : Bool) (before : Schema) : Result (Unit {0}) × Schema → Type 0 where
  done : Ends smooth before (ok tt, complete)
  stopped : (e : Error) → smooth ≡ false → Ends smooth before (err e, before)
  unheard : (e : Error) → smooth ≡ false → Ends smooth before (err e, complete)

committed-Ends :
    (reply : Reply) (before : Schema) (made : Result Schema)
    → ((after : Schema) → made ≡ ok after → after ≡ complete)
    → Ends false before (committed reply before made)
committed-Ends reply before (err e) h = stopped e refl
committed-Ends fine before (ok after) h = rw (h after refl) done
committed-Ends refused before (ok after) h = stopped (failed "commit") refl
committed-Ends lost before (ok after) h = rw (h after refl) (unheard (failed "commit") refl)

connected-Ends :
    (run : Run) (before : Schema) (connection : Result ConnConfig)
    → IsStage before
    → Ends false before (connected run before connection)
connected-Ends run before (err e) stage = stopped e refl
connected-Ends run before (ok connection) stage =
    committed-Ends run.commit before (transaction run before)
      (λ after made. transaction-complete run before after stage made)

rough-Ends :
    (process : Process) (run : Run) (before : Schema)
    → IsStage before
    → Ends false before (migrate process run before)
unfolding migrate
rough-Ends process run before stage =
    elim (Bool-cases (length (variable process "RELAY_DATABASE_URL") == 0)) [
      | inl unset ↦ rw unset (stopped (failed "database URL required") refl)
      | inr set ↦ rw set (connected-Ends run before (open_connection process run) stage)
    ]

connected-smooth :
    (run : Run) (before : Schema) (connection : Result ConnConfig)
    → is_ok connection ≡ true
    → is_fine run.commit ≡ true
    → transaction run before ≡ ok complete
    → connected run before connection ≡ (ok tt, complete)
connected-smooth run before (err e) opened commit h = cc
connected-smooth run before (ok connection) opened commit h = rw h (settled run.commit commit)
  where
    settled :
        (reply : Reply)
        → is_fine reply ≡ true
        → committed reply before (ok complete) ≡ (ok tt, complete)
    settled fine e = refl
    settled refused e = cc
    settled lost e = cc

migrate-smooth :
    (process : Process) (run : Run) (before : Schema)
    → IsStage before
    → is_smooth process run ≡ true
    → migrate process run before ≡ (ok tt, complete)
unfolding migrate
migrate-smooth process run before stage h =
    let set : (length (variable process "RELAY_DATABASE_URL") == 0) ≡ false = ground arith in
    rw set (
      connected-smooth run before (open_connection process run) (ground arith) (ground arith)
        (transaction-smooth process run before stage h))

-- From each schema that the migrations leave, a run of the command ends well with both migrations
-- in place if nothing fails. If something fails it may end with an error, and then the schema is as
-- it was or has both: no run adds only one of two missing migrations.
pub migrate-Ends :
    (process : Process) (run : Run) (before : Schema)
    → IsStage before
    → Ends (is_smooth process run) before (migrate process run before)
migrate-Ends process run before stage = elim (Bool-cases (is_smooth process run)) [
  | inl smooth ↦
      subst (Ends (is_smooth process run) before)
        (sym (migrate-smooth process run before stage smooth)) done
  | inr rough ↦
      subst (λ b. Ends b before (migrate process run before)) (sym rough)
        (rough-Ends process run before stage)
]
