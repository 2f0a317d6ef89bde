-- ===== src/Registry/Integrity.antt =====
-- What an append to a registry keeps, and when it is refused (base_registry.py).
use crypto_ai_system.Common.{
  Bool, true, false, Option, none, some, List, [], ◌∷◌, ◌++◌, ◌≡◌, refl, arith, ◌⊎◌, inl, inr,
}
use crypto_ai_system.Registry.{
  Line, row, blank, bad_time, damaged, File, read_lines, prepend, load_registry_records,
  tail_is_object, append_registry_record,
}

module _ {ℓ} {A : Type ℓ} where
  abbrev pub snoc : Option (List A) → A → Option (List A)
  snoc none a = none
  snoc (some rows) a = some (rows ++ a ∷ [])

  read_lines-append :
      (lines : List (Line A)) (a : A) → read_lines (lines ++ row a ∷ []) ≡ snoc (read_lines lines) a
  unfolding read_lines
  read_lines-append [] a = refl
  read_lines-append (row b ∷ rest) a = rw (read_lines-append rest a) (go (read_lines rest))
    where
      go : (r : Option (List A)) → prepend b (snoc r a) ≡ snoc (prepend b r) a
      go none = refl
      go (some rows) = refl
  read_lines-append (blank ∷ rest) a = read_lines-append rest a
  read_lines-append (bad_time b ∷ rest) a = refl
  read_lines-append (damaged ∷ rest) a = refl

  -- An append that succeeds adds its record behind those that a read gives; a file that no read
  -- accepts is accepted by none after it, so damage is never written over.
  pub load-append :
      (file : File A) (canonical : Bool) (a : A) {file' : File A}
      → append_registry_record file canonical a ≡ some file'
      → (load_registry_records file' ≡ snoc (load_registry_records file) a)
        × (file'.lines ≡ file.lines ++ row a ∷ [])
        × (file'.ended ≡ true)
  unfolding append_registry_record load_registry_records
  load-append file canonical a h = ground (arith, read_lines-append file.lines a)

  tail_is_object-damaged :
      (seen : Bool) (before : List (Line A)) → tail_is_object seen (before ++ damaged ∷ []) ≡ false
  unfolding tail_is_object
  tail_is_object-damaged seen [] = refl
  tail_is_object-damaged seen (row a ∷ rest) = tail_is_object-damaged true rest
  tail_is_object-damaged seen (blank ∷ rest) = tail_is_object-damaged seen rest
  tail_is_object-damaged seen (bad_time a ∷ rest) = tail_is_object-damaged true rest
  tail_is_object-damaged seen (damaged ∷ rest) = tail_is_object-damaged false rest

  -- An append is refused where the last line has no newline, and where it is damaged.
  pub append_registry_record-refuses :
      (before : List (Line A)) (last : Line A) (ended canonical : Bool) (a : A)
      → (ended ≡ false) ⊎ (last ≡ damaged)
      → append_registry_record (record { lines = before ++ last ∷ []; ended = ended }) canonical a
        ≡ none
  unfolding append_registry_record
  append_registry_record-refuses [] last ended canonical a h = unfold tail_is_object in ground arith
  append_registry_record-refuses (b ∷ rest) last ended canonical a (inl h) = ground arith
  append_registry_record-refuses (b ∷ rest) last ended canonical a (inr h) =
      rw h (ground (arith, tail_is_object-damaged true (b ∷ rest)))
