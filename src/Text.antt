-- ===== src/Text.antt =====
-- Texts as the sequences of their code points, for the source's `.strip().lower()` and `in`. Letters
-- and whitespace are those of ASCII, which is what the compared texts of this system are made of.
use crypto_ai_system.Common.{
  ℕ, ◌+◌, String, Bool, true, false, ◌&&◌, ◌||◌, List, [], ◌∷◌, leb, ◌==◌, if◌then◌else◌, ◌≡◌, refl,
}
use Prim.Native.Char.{code}

unfoldable pub codes : String → List ℕ
codes String.[] = []
codes (String.◌∷◌ c s) = code c ∷ codes s

abbrev lower_code : ℕ → ℕ
lower_code n = if leb 65 n && leb n 90 then n + 32 else n

-- `text.lower()`
unfoldable pub lower : List ℕ → List ℕ
lower [] = []
lower (n ∷ rest) = lower_code n ∷ lower rest

abbrev is_space : ℕ → Bool
is_space n = (leb 9 n && leb n 13) || (leb 28 n && leb n 32)

strip_left : List ℕ → List ℕ
strip_left [] = []
strip_left (n ∷ rest) = if is_space n then strip_left rest else n ∷ rest

strip_right : List ℕ → List ℕ
strip_right [] = []
strip_right (n ∷ rest) = elim (strip_right rest) [
  | [] ↦ if is_space n then [] else n ∷ []
  | m ∷ more ↦ n ∷ m ∷ more
]

-- `text.strip()`
unfoldable pub strip : List ℕ → List ℕ
unfolding strip_left strip_right
strip s = strip_right (strip_left s)

unfoldable pub same_text : List ℕ → List ℕ → Bool
same_text [] [] = true
same_text [] (m ∷ rest) = false
same_text (n ∷ rest) [] = false
same_text (n ∷ rest) (m ∷ more) = (n == m) && same_text rest more

unfoldable pub starts_text : List ℕ → List ℕ → Bool
starts_text [] s = true
starts_text (n ∷ rest) [] = false
starts_text (n ∷ rest) (m ∷ more) = (n == m) && starts_text rest more

-- `part in text`
unfoldable pub contains : List ℕ → List ℕ → Bool
unfolding starts_text
contains part [] = starts_text part []
contains part (n ∷ rest) = starts_text part (n ∷ rest) || contains part rest

folds : same_text (lower (strip (codes " Live\n"))) (codes "live") ≡ true
unfolding codes lower strip same_text
folds = refl

finds : contains (codes "timeout") (lower (codes "ReadTimeoutError")) ≡ true
unfolding codes lower contains
finds = refl
