-- ===== src/Common/Lists.antt =====
-- Lists measured and counted by native numbers.
use Prim.Native.Nat.{ℕ, zero, suc, ◌+◌, ◌-◌, ◌≤◌}
use mathlib.Core.Path.{◌≡◌, refl}
use mathlib.Core.Bool.{Bool, true, false, ◌&&◌, ◌||◌}
use mathlib.Core.List.{List, [], ◌∷◌, ◌++◌}
use native.Mathlib.Omega.{arith}
use crypto_ai_system.Common.Tests.{if◌then◌else◌}

module _ {ℓ} {A : Type ℓ} where
  abbrev pub length : List A → ℕ
  length [] = 0
  length (x ∷ xs) = suc (length xs)

  pub length-append : (xs ys : List A) → length (xs ++ ys) ≡ length xs + length ys
  length-append [] ys = omega arith
  length-append (x ∷ xs) ys = omega (arith, length-append xs ys)

  -- `sum(1 for x in xs if test(x))`.
  abbrev pub count : (A → Bool) → List A → ℕ
  count test [] = 0
  count test (x ∷ xs) = (if test x then 1 else 0) + count test xs

  pub count-append :
      (test : A → Bool) (xs ys : List A) → count test (xs ++ ys) ≡ count test xs + count test ys
  count-append test [] ys = omega arith
  count-append test (x ∷ xs) ys = omega (arith, count-append test xs ys)

  pub count-le-length : (test : A → Bool) (xs : List A) → count test xs ≤ length xs
  count-le-length test [] = omega arith
  count-le-length test (x ∷ xs) = ground (arith, count-le-length test xs)

  -- `[x for x in xs if test(x)]`.
  abbrev pub keep : (A → Bool) → List A → List A
  keep test [] = []
  keep test (x ∷ xs) = if test x then x ∷ keep test xs else keep test xs

  pub length-keep : (test : A → Bool) (xs : List A) → length (keep test xs) ≡ count test xs
  length-keep test [] = refl
  length-keep test (x ∷ xs) = ground (arith, length-keep test xs)

  abbrev pub concat : List (List A) → List A
  concat [] = []
  concat (xs ∷ rest) = xs ++ concat rest

  -- `any(test(x) for x in xs)`.
  abbrev pub any : (A → Bool) → List A → Bool
  any test [] = false
  any test (x ∷ xs) = test x || any test xs

  -- `all(test(x) for x in xs)`.
  abbrev pub all : (A → Bool) → List A → Bool
  all test [] = true
  all test (x ∷ xs) = test x && all test xs

  abbrev pub All {κ} : (A → Type κ) → List A → Type κ
  All P [] = Unit
  All P (x ∷ xs) = P x × All P xs

  pub All-append {κ} : (P : A → Type κ) (xs ys : List A) → All P xs → All P ys → All P (xs ++ ys)
  All-append P [] ys hx hy = hy
  All-append P (x ∷ xs) ys hx hy = (hx.0, All-append P xs ys hx.1 hy)

  abbrev pub drop : ℕ → List A → List A
  drop n [] = []
  drop zero (x ∷ xs) = x ∷ xs
  drop (suc n) (x ∷ xs) = drop n xs

  pub count-any : (test : A → Bool) (xs : List A) → any test xs ≡ false → count test xs ≡ 0
  count-any test [] h = refl
  count-any test (x ∷ xs) h = ground (arith, count-any test xs)

  pub any-count : (test : A → Bool) (xs : List A) → any test xs ≡ true → 1 ≤ count test xs
  any-count test [] h = cc
  any-count test (x ∷ xs) h = ground (arith, any-count test xs)

  pub count-keep :
      (test kept : A → Bool) (xs : List A)
      → count test (keep kept xs) ≡ count (λ x. test x && kept x) xs
  count-keep test kept [] = refl
  count-keep test kept (x ∷ xs) = ground (arith, count-keep test kept xs)

  pub length-drop : (n : ℕ) (xs : List A) → length (drop n xs) ≡ length xs - n
  length-drop n [] = omega arith
  length-drop zero (x ∷ xs) = omega arith
  length-drop (suc n) (x ∷ xs) = omega (arith, length-drop n xs)

  pub drop-split : (n : ℕ) (xs : List A) → (before : List A) × (before ++ drop n xs ≡ xs)
  drop-split n [] = ([], refl)
  drop-split zero (x ∷ xs) = ([], refl)
  drop-split (suc n) (x ∷ xs) = let (before, e) = drop-split n xs in (x ∷ before, rw e refl)

  pub all-All : (test : A → Bool) (xs : List A) → all test xs ≡ true → All (λ x. test x ≡ true) xs
  all-All test [] h = tt
  all-All test (x ∷ xs) h = (ground arith, all-All test xs (ground arith))

  abbrev pub take : ℕ → List A → List A
  take n [] = []
  take zero (x ∷ xs) = []
  take (suc n) (x ∷ xs) = x ∷ take n xs

module _ {ℓ} {A : Type ℓ} where
  nil_append : (xs ys : List A) → xs ++ ys ≡ [] → (xs ≡ []) × (ys ≡ [])
  nil_append [] ys h = (refl, h)
  nil_append (x ∷ xs) ys h = cc

  -- A concatenation is empty only where each of its lists is.
  pub concat-nil : (xss : List (List A)) → concat xss ≡ [] → All (λ (xs : List A). xs ≡ []) xss
  concat-nil [] h = tt
  concat-nil (xs ∷ rest) h =
      let parts = nil_append xs (concat rest) h in (parts.0, concat-nil rest parts.1)

  -- The reason, where the test holds.
  abbrev pub when : Bool → A → List A
  when test reason = if test then reason ∷ [] else []

  pub when-nil : (test : Bool) (reason : A) → when test reason ≡ [] → test ≡ false
  when-nil false reason h = refl
  when-nil true reason h = cc
