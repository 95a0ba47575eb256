-- ===== src/Gateway/Launch.antt =====
-- gateway/main.go: the private files, and the start of the pooler. The operating system's answers
-- and the embedded pgbouncer.ini are parameters.
use p3_relay.Prelude.{
  ℕ, Bool, true, false, not, Option, none, some, List, [], ◌∷◌, ◌++◌, Bytes, String, codes,
  if◌then◌else◌,
}
use p3_relay.Errors.{Error, Result, ok, err, failed}
use p3_relay.Gateway.{Configuration, Libraries, validate}

-- What the calls of the system do. A write that fails may leave something in its file.
pub record Os : Type 0 where
  pub makes_directory : Bool
  pub writes : Bytes → Bool
  pub leaves : Bytes → Option Bytes
  pub removes : Bool
  pub enters : Bool
  pub executes : Bool

-- The files of the private directory, with their contents.
abbrev pub Files : Type 0
Files = List (Bytes × Bytes)

abbrev pub left_by_write : Option Bytes → Bytes → Files → Files
left_by_write none name files = files
left_by_write (some content) name files = files ++ (name, content) ∷ []

-- The loop over the files: whether all were written, and what is in the directory.
unfoldable pub write_files : Os → Files → Files → Bool × Files
write_files os [] files = (true, files)
write_files os ((name, content) ∷ rest) files =
    let more = write_files os rest (files ++ (name, content) ∷ []) in
    if os.writes name then more else (false, left_by_write (os.leaves name) name files)

-- The lines of `users.txt`.
abbrev pub user_line : String → Bytes → Bytes
user_line name password = b'"' ∷ (codes name ++ b'"' ∷ 32 ∷ b'"' ∷ (password ++ b'"' ∷ 10 ∷ []))

abbrev pub private_files : Bytes → Configuration → Files
private_files pooler_configuration value =
    (codes "pgbouncer.ini", pooler_configuration)
    ∷ (codes "server.crt", value.certificate)
    ∷ (codes "server.key", value.private_key)
    ∷ (codes "backend.crt", value.backend_ca)
    ∷ (
      codes "users.txt",
      user_line "p3_relay_runtime" value.runtime_password
          ++ user_line "p3_relay_migrator" value.migration_password,
    )
    ∷ []

-- The error, if there is one, and the private directory, if it is there.
abbrev pub Prepared : Type 0
Prepared = Result (Unit {0}) × Option Files

abbrev pub kept_or_removed : Os → Bool × Files → Prepared
kept_or_removed os (true, files) = (ok tt, some files)
kept_or_removed os (false, files) =
    if os.removes
    then (err (failed "private runtime file creation failed"), none)
    else (err (failed "private runtime directory cleanup failed"), some files)

-- `prepareFiles`.
unfoldable pub prepare_files : Os → Bytes → Configuration → Prepared
unfolding write_files
prepare_files os pooler_configuration value =
    if not os.makes_directory
    then (err (failed "private runtime directory creation failed"), none)
    else kept_or_removed os (write_files os (private_files pooler_configuration value) [])

-- How `launch` ends: the pooler replaces the process, with the directory's files; or an error, with
-- what is left of the directory.
pub data Launched : Type 0 where
  replaced : Files → Launched
  rejected : Error → Option Files → Launched

-- The removal that is deferred; its failure is logged.
abbrev pub reclaimed : Os → Files → Option Files
reclaimed os files = if os.removes then none else some files

abbrev pub launch_prepared : Os → Prepared → Launched
launch_prepared os (err e, left) = rejected e left
launch_prepared os (ok _, none) = rejected (failed "runtime directory unavailable") none
launch_prepared os (ok _, some files) =
    if not os.enters
    then rejected (failed "runtime directory unavailable") (reclaimed os files)
    else if not os.executes
    then rejected (failed "pooler executable unavailable") (reclaimed os files)
    else replaced files

abbrev pub launch_validated : Os → Bytes → Configuration → Result (Unit {0}) → Launched
launch_validated os pooler_configuration value (err e) = rejected e none
launch_validated os pooler_configuration value (ok _) =
    launch_prepared os (prepare_files os pooler_configuration value)

abbrev pub configuration_of : (Bytes → Bytes) → Configuration
configuration_of getenv = record {
  certificate = getenv (codes "GATEWAY_CERTIFICATE");
  private_key = getenv (codes "GATEWAY_PRIVATE_KEY");
  backend_ca = getenv (codes "GATEWAY_BACKEND_CA");
  hostname = getenv (codes "GATEWAY_HOSTNAME");
  runtime_password = getenv (codes "GATEWAY_RUNTIME_PASSWORD");
  migration_password = getenv (codes "GATEWAY_MIGRATION_PASSWORD");
}

-- `launch`.
unfoldable pub launch : Libraries → Os → Bytes → (Bytes → Bytes) → ℕ → Launched
unfolding prepare_files
launch libraries os pooler_configuration getenv now =
    launch_validated os pooler_configuration (configuration_of getenv)
      (validate libraries (configuration_of getenv) now)

-- `main`'s exit status, where the process is not replaced.
abbrev pub exit_status : Launched → Option ℕ
exit_status (replaced files) = none
exit_status (rejected e left) = some 1
