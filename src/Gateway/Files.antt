-- ===== src/Gateway/Files.antt =====
-- gateway/main.go: what a launch leaves in the private directory.
use p3_relay.Prelude.{
  ℕ, ◌≡◌, refl, ◌⊎◌, inl, inr, Bool, true, false, ◌&&◌, Option, none, some, List, [], ◌∷◌, ◌++◌,
  Bytes, Bool-cases, arith, sym, ap, ◌∙◌,
}
use p3_relay.Errors.{Error, Result, ok, err}
use p3_relay.Gateway.{Configuration, Libraries, validate}
use p3_relay.Gateway.Launch.{
  Os, Files, write_files, left_by_write, private_files, prepare_files, kept_or_removed, Launched,
  replaced, rejected, reclaimed, launch_prepared, launch_validated, configuration_of, launch,
}

-- Whether every file can be written.
unfoldable pub all_written : Os → Files → Bool
all_written os [] = true
all_written os (file ∷ rest) = os.writes file.0 && all_written os rest

append-cons : {A : Type 0} (xs ys : List A) (x : A) → (xs ++ x ∷ []) ++ ys ≡ xs ++ x ∷ ys
append-cons [] ys x = refl
append-cons (y ∷ xs) ys x = ap (λ l. y ∷ l) (append-cons xs ys x)

append-nil : {A : Type 0} (xs : List A) → xs ++ [] ≡ xs
append-nil [] = refl
append-nil (x ∷ xs) = ap (λ l. x ∷ l) (append-nil xs)

write_files-all :
    (os : Os) (rest files : Files)
    → all_written os rest ≡ true
    → write_files os rest files ≡ (true, files ++ rest)
unfolding write_files all_written
write_files-all os [] files h = ap (λ l. (true, l)) (sym (append-nil files))
write_files-all os ((name, content) ∷ rest) files h =
    let this : os.writes name ≡ true = ground arith in
    rw this (
      write_files-all os rest (files ++ (name, content) ∷ []) (ground arith)
      ∙ ap (λ l. (true, l)) (append-cons files rest (name, content)))

write_files-some :
    (os : Os) (rest files : Files)
    → all_written os rest ≡ false
    → (left : Files) × (write_files os rest files ≡ (false, left))
unfolding write_files all_written
write_files-some os [] files h = cc
write_files-some os ((name, content) ∷ rest) files h = elim (Bool-cases (os.writes name)) [
  | inr bad ↦ (left_by_write (os.leaves name) name files, rw bad refl)
  | inl good ↦
      let (left, e) = write_files-some os rest (files ++ (name, content) ∷ []) (rw good at h) in
      (left, rw good e)
]

-- Whether nothing but the validation can stop a launch.
abbrev pub is_able : Os → Files → Bool
is_able os files = os.makes_directory && all_written os files && os.enters && os.executes

-- How a launch ends. A replaced process was validated and has exactly the private files; after an error
-- the directory is gone, unless the system cannot remove it; and without a fault of the
-- configuration or of the system there is no error.
pub data Ends (os : Os) (files : Files) (validated : Result (Unit {0})) : Launched → Type 0 where
  runs : validated ≡ ok tt → Ends os files validated (replaced files)
  stops :
      (e : Error) (left : Option Files)
      → (left ≡ none) ⊎ (os.removes ≡ false)
      → (validated ≡ err e) ⊎ (is_able os files ≡ false)
      → Ends os files validated (rejected e left)

reclaimed-gone : (os : Os) (files : Files) → (reclaimed os files ≡ none) ⊎ (os.removes ≡ false)
reclaimed-gone os files = elim (Bool-cases os.removes) [
  | inl can ↦ inl (rw can refl)
  | inr cannot ↦ inr cannot
]

module _ (os : Os) (pooler_configuration : Bytes) (value : Configuration) where
  abbrev files : Files
  files = private_files pooler_configuration value

  written-Ends :
      (made : os.makes_directory ≡ true)
      → all_written os files ≡ true
      → Ends os files (ok tt) (launch_prepared os (ok tt, some files))
  written-Ends made all_ = elim (Bool-cases os.enters) [
    | inr no_ ↦ rw no_ (stops _ _ (reclaimed-gone os files) (inr (ground arith)))
    | inl entered ↦ elim (Bool-cases os.executes) [
      | inr no_ ↦ rw (entered, no_) (stops _ _ (reclaimed-gone os files) (inr (ground arith)))
      | inl executed ↦ rw (entered, executed) (runs refl)
    ]
  ]

  unwritten-Ends :
      (left : Files)
      → all_written os files ≡ false
      → Ends os files (ok tt) (launch_prepared os (kept_or_removed os (false, left)))
  unwritten-Ends left some_ = elim (Bool-cases os.removes) [
    | inl can ↦ simp can (stops _ none (inl refl) (inr (ground arith)))
    | inr cannot ↦ simp cannot (stops _ (some left) (inr cannot) (inr (ground arith)))
  ]

  prepared-Ends :
      Ends os files (ok tt) (launch_prepared os (prepare_files os pooler_configuration value))
  unfolding prepare_files
  prepared-Ends = elim (Bool-cases os.makes_directory) [
    | inr no_ ↦ rw no_ (stops _ none (inl refl) (inr (ground arith)))
    | inl made ↦ elim (Bool-cases (all_written os files)) [
      | inl all_ ↦ simp made (rw (write_files-all os files [] all_) (written-Ends made all_))
      | inr some_ ↦
          let (left, e) = write_files-some os files [] some_ in
          simp made (rw e (unwritten-Ends left some_))
    ]
  ]

  validated-Ends :
      (validated : Result (Unit {0}))
      → Ends os files validated (launch_validated os pooler_configuration value validated)
  validated-Ends (err e) = stops e none (inl refl) (inl refl)
  validated-Ends (ok tt) = prepared-Ends

-- The pooler replaces the process only after the configuration was validated, with exactly the
-- five private files in its directory; and it does so whenever the configuration is valid and no
-- call of the system fails. After any error the private directory is gone, unless it cannot be removed.
pub launch-Ends :
    (libraries : Libraries) (os : Os) (pooler_configuration : Bytes) (getenv : Bytes → Bytes)
    (now : ℕ)
    → Ends os
        (private_files pooler_configuration (configuration_of getenv))
        (validate libraries (configuration_of getenv) now)
        (launch libraries os pooler_configuration getenv now)
unfolding launch
launch-Ends libraries os pooler_configuration getenv now =
    validated-Ends os pooler_configuration (configuration_of getenv)
      (validate libraries (configuration_of getenv) now)
