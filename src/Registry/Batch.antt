-- ===== src/Registry/Batch.antt =====
-- The batch append of a registry against the append of one record (base_registry.py).
use crypto_ai_system.Common.{
  arith, ◌&&◌, all, Bool, true, false, Option, none, some, List, [], ◌∷◌, ◌++◌, ◌≡◌, refl, map,
  Bool-cases, sym, ap, ◌∙◌, inl, inr,
}
use mathlib.Core.List.{append_assoc}
use crypto_ai_system.Registry.{
  Line, row, blank, bad_time, damaged, File, tail_is_object, tail_is_valid, append_registry_record,
  append_registry_records, is_canonical, payload,
}

module _ {ℓ} {A : Type ℓ} where
  -- What an operation leaves, and whether it has raised no error: the old file where it raises.
  abbrev pub left_by : File A → Option (File A) → File A × Bool
  left_by file none = (file, false)
  left_by file (some file') = (file', true)

  -- The records one after another, each with its own checks, up to the first error.
  abbrev pub append_each : File A × Bool → List (Bool × A) → File A × Bool
  append_each (file, false) records = (file, false)
  append_each (file, true) [] = (file, true)
  append_each (file, true) (r ∷ rest) =
      append_each (left_by file (append_registry_record file r.0 r.1)) rest

  tail_is_object-row :
      (seen : Bool) (lines : List (Line A)) (a : A)
      → tail_is_object seen (lines ++ row a ∷ []) ≡ true
  unfolding tail_is_object
  tail_is_object-row seen [] a = refl
  tail_is_object-row seen (row b ∷ rest) a = tail_is_object-row true rest a
  tail_is_object-row seen (blank ∷ rest) a = tail_is_object-row seen rest a
  tail_is_object-row seen (bad_time b ∷ rest) a = tail_is_object-row true rest a
  tail_is_object-row seen (damaged ∷ rest) a = tail_is_object-row false rest a

  tail_is_valid-row :
      (lines : List (Line A)) (a : A)
      → tail_is_valid (record { lines = lines ++ row a ∷ []; ended = true }) ≡ true
  unfolding tail_is_valid tail_is_object
  tail_is_valid-row [] a = refl
  tail_is_valid-row (line ∷ rest) a = tail_is_object-row true (line ∷ rest) a

  append-canonical :
      (file : File A) (a : A)
      → tail_is_valid file ≡ true
      → append_registry_record file true a
        ≡ some (record { lines = file.lines ++ row a ∷ []; ended = true })
  unfolding append_registry_record
  append-canonical file a valid = rw valid refl

  append-refused :
      (file : File A) (canonical : Bool) (a : A)
      → (tail_is_valid file && canonical) ≡ false
      → append_registry_record file canonical a ≡ none
  unfolding append_registry_record
  append-refused file canonical a h = rw h refl

  -- Behind a row that stands at the end of a complete file.
  append_each-canonical :
      (lines : List (Line A)) (a : A) (records : List (Bool × A))
      → all is_canonical records ≡ true
      → append_each (record { lines = lines ++ row a ∷ []; ended = true }, true) records
        ≡ (record { lines = lines ++ map row (a ∷ map payload records); ended = true }, true)
  append_each-canonical lines a [] h = refl
  append_each-canonical lines a ((false, b) ∷ rest) h = cc
  append_each-canonical lines a ((true, b) ∷ rest) h =
      let file : File A = record { lines = lines ++ row a ∷ []; ended = true } in
      ap (λ o. append_each (left_by file o) rest)
        (append-canonical file b (tail_is_valid-row lines a))
      ∙ append_each-canonical (lines ++ row a ∷ []) b rest h
      ∙ rw (append_assoc lines (row a ∷ []) (map row (b ∷ map payload rest))) refl

  append_each-stopped :
      (file : File A) (records : List (Bool × A))
      → append_each (file, false) records ≡ (file, false)
  append_each-stopped file [] = refl
  append_each-stopped file (r ∷ rest) = refl

  append_each-refused :
      (file : File A) (canonical : Bool) (a : A) (rest : List (Bool × A))
      → (tail_is_valid file && canonical) ≡ false
      → append_each (file, true) ((canonical, a) ∷ rest) ≡ (file, false)
  append_each-refused file canonical a rest h =
      ap (λ o. append_each (left_by file o) rest) (append-refused file canonical a h)
      ∙ append_each-stopped file rest

  append_each-raised :
      (file : File A) (records : List (Bool × A))
      → all is_canonical records ≡ false
      → (append_each (file, true) records).1 ≡ false
  append_each-raised file [] h = cc
  append_each-raised file ((false, b) ∷ rest) h =
      ap (λ r. r.1) (append_each-refused file false b rest (ground arith))
  append_each-raised file ((true, b) ∷ rest) h =
      go (λ next. append_each-raised next rest h) (append_registry_record file true b)
    where
      go :
          ((next : File A) → (append_each (next, true) rest).1 ≡ false)
          → (o : Option (File A)) → (append_each (left_by file o) rest).1 ≡ false
      go later none = ap (λ r. r.1) (append_each-stopped file rest)
      go later (some next) = later next

  together :
      (file : File A) (canonical : Bool) (a : A) (rest : List (Bool × A))
      → all is_canonical ((canonical, a) ∷ rest) ≡ true
      → left_by file (append_registry_records file ((canonical, a) ∷ rest))
        ≡ append_each (file, true) ((canonical, a) ∷ rest)
  unfolding append_registry_records
  together file false a rest h = cc
  together file true a rest h = elim (Bool-cases (tail_is_valid file)) [
    | inl valid ↦
        rw (valid, h)
          (sym (
            ap (λ o. append_each (left_by file o) rest) (append-canonical file a valid)
            ∙ append_each-canonical file.lines a rest h))
    | inr invalid ↦
        rw invalid (sym (append_each-refused file true a rest (ground (arith, invalid))))
  ]

  -- Where every record has a canonical timestamp, a batch of at least one leaves what its records one
  -- after another would leave, the refusal included; where one has not, both raise, and the batch
  -- leaves the file as it was.
  pub append_registry_records-each :
      (file : File A) (r : Bool × A) (rest : List (Bool × A))
      → let batch = left_by file (append_registry_records file (r ∷ rest)) in
        (all is_canonical (r ∷ rest) ≡ true → batch ≡ append_each (file, true) (r ∷ rest))
        × (all is_canonical (r ∷ rest) ≡ false
            → (batch ≡ (file, false)) × ((append_each (file, true) (r ∷ rest)).1 ≡ false))
  unfolding append_registry_records
  append_registry_records-each file (canonical, a) rest = (
    λ h. together file canonical a rest h,
    λ h. (ground (arith, h), append_each-raised file ((canonical, a) ∷ rest) h),
  )
