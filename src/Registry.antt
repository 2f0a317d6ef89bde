-- ===== src/Registry.antt =====
-- The append-only registries (src/crypto_ai_system/registry/base_registry.py): a file of lines, the
-- full check of a read and the check of the tail before an append. A raised `RegistryIntegrityError`
-- is `none`.
pub mod Integrity
pub mod Batch
use crypto_ai_system.Common.{
  ℕ, ltb, map, all, ◌&&◌, Bool, true, false, Option, none, some, List, [], ◌∷◌, ◌++◌, if◌then◌else◌,
}

-- A line is an object with a readable record, whitespace, or an object whose `created_at_utc` is not
-- canonical; whatever else is `damaged`: it is no JSON, or no object.
pub data Line {ℓ} (A : Type ℓ) : Type ℓ where
  row : A → Line A
  blank : Line A
  bad_time : A → Line A
  damaged : Line A

-- A file that does not exist has no lines. `ended` is whether the last line has its newline.
pub record File {ℓ} (A : Type ℓ) : Type ℓ where
  pub lines : List (Line A)
  pub ended : Bool

module _ {ℓ} {A : Type ℓ} where
  abbrev pub prepend : A → Option (List A) → Option (List A)
  prepend a none = none
  prepend a (some rows) = some (a ∷ rows)

  -- `_read_existing_records`
  unfoldable pub read_lines : List (Line A) → Option (List A)
  read_lines [] = some []
  read_lines (row a ∷ rest) = prepend a (read_lines rest)
  read_lines (blank ∷ rest) = read_lines rest
  read_lines (bad_time a ∷ rest) = none
  read_lines (damaged ∷ rest) = none

  -- `load_registry_records`
  unfoldable pub load_registry_records : File A → Option (List A)
  unfolding read_lines
  load_registry_records file = read_lines file.lines

  -- The last line that is not blank is an object, or there is none.
  unfoldable pub tail_is_object : Bool → List (Line A) → Bool
  tail_is_object seen [] = seen
  tail_is_object seen (row a ∷ rest) = tail_is_object true rest
  tail_is_object seen (blank ∷ rest) = tail_is_object seen rest
  tail_is_object seen (bad_time a ∷ rest) = tail_is_object true rest
  tail_is_object seen (damaged ∷ rest) = tail_is_object false rest

  -- `_validate_tail`: true where it returns, false where it raises.
  unfoldable pub tail_is_valid : File A → Bool
  unfolding tail_is_object
  tail_is_valid file = elim file.lines [
    | [] ↦ true
    | line ∷ rest ↦ if file.ended then tail_is_object true (line ∷ rest) else false
  ]

  -- `append_registry_record`, for a record and whether its `created_at_utc`, which is the clock's
  -- where the record has none, is canonical. The file is as it was where an error is raised.
  unfoldable pub append_registry_record : File A → Bool → A → Option (File A)
  unfolding tail_is_valid
  append_registry_record file canonical a =
      if tail_is_valid file && canonical
      then some (record { lines = file.lines ++ row a ∷ []; ended = true })
      else none

  abbrev pub with_rows : File A → List A → File A
  with_rows file [] = file
  with_rows file (a ∷ rows) = record { lines = file.lines ++ map row (a ∷ rows); ended = true }

  abbrev pub is_canonical : Bool × A → Bool
  is_canonical r = r.0

  abbrev pub payload : Bool × A → A
  payload r = r.1

  -- `append_registry_records`: one check of the tail, then of every record, then all the rows.
  unfoldable pub append_registry_records : File A → List (Bool × A) → Option (File A)
  unfolding tail_is_valid
  append_registry_records file records =
      if tail_is_valid file && all is_canonical records
      then some (with_rows file (map payload records))
      else none

  -- `rotate_registry_if_large`, for the size of a file in bytes: the file that is left, and the
  -- archive if there is one.
  unfoldable pub rotate_registry_if_large : (File A → ℕ) → ℕ → File A → File A × Option (File A)
  rotate_registry_if_large size max_bytes file = elim file.lines [
    | [] ↦ (file, none)
    | line ∷ rest ↦
        if ltb (size file) max_bytes
        then (file, none)
        else (record { lines = []; ended = true }, some file)
  ]
