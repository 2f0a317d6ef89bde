-- ===== src/Backtest/Split.antt =====
-- The walk-forward split of the bars (src/crypto_ai_system/backtesting/walk_forward.py).
use native.Mathlib.Nat.{div-add-mod', mod-lt}
use crypto_ai_system.Common.{
  ℕ, zero, suc, ◌+◌, ◌-◌, ◌*◌, ◌/◌, ◌%◌, ◌≤◌, ◌<◌, min, false, ◌||◌, List, [], ◌∷◌, ◌≡◌, refl,
  arith, length, ltb, ◌==◌, if◌then◌else◌,
}

-- The loop of `split_windows`, from the window `w` with `left` windows to come.
unfoldable windows_from : ℕ → ℕ → ℕ → ℕ → ℕ → List (ℕ × ℕ)
windows_from base rem w start zero = []
windows_from base rem w start (suc left) =
    let size = base + (if ltb w rem then 1 else 0) in
    (start, start + size) ∷ windows_from base rem (suc w) (start + size) left

-- Numbers of rows and of windows at or below zero are 0 here.
unfoldable pub split_windows : ℕ → ℕ → List (ℕ × ℕ)
unfolding windows_from
split_windows n k =
    let k' = min k n in if n == 0 || k == 0 then [] else windows_from (n / k') (n % k') 0 0 k'

seven_in_three : split_windows 7 3 ≡ (0, 3) ∷ (3, 5) ∷ (5, 7) ∷ []
unfolding split_windows
seven_in_three = refl

-- Windows that follow one another from `start` to `stop`, each of `base` rows or of one more.
abbrev pub IsChain : ℕ → ℕ → ℕ → List (ℕ × ℕ) → Type 0
IsChain base start stop [] = start ≡ stop
IsChain base start stop ((a, b) ∷ rest) =
    (a ≡ start) × (a + base ≤ b) × (b ≤ a + base + 1) × IsChain base b stop rest

length-windows_from :
    (base rem w start left : ℕ) → length (windows_from base rem w start left) ≡ left
unfolding windows_from
length-windows_from base rem w start zero = refl
length-windows_from base rem w start (suc left) = omega (
  arith,
  length-windows_from base rem (suc w) (start + (base + (if ltb w rem then 1 else 0))) left,
)

windows_from-IsChain :
    (base rem w start left stop : ℕ)
    → rem ≤ w + left
    → start + left * base + (rem - w) ≡ stop
    → IsChain base start stop (windows_from base rem w start left)
unfolding windows_from
windows_from-IsChain base rem w start zero stop le e = ground arith
windows_from-IsChain base rem w start (suc left) stop le e =
    let extra : ℕ = if ltb w rem then 1 else 0 in
    (
      refl,
      ground arith,
      ground arith,
      windows_from-IsChain base rem (suc w) (start + (base + extra)) left stop (omega arith)
          (ground arith),
    )

share_positive : (q k r n : ℕ) → q * k + r ≡ n → r < k → k ≤ n → 1 ≤ q
share_positive zero k r n whole rest_lt le = omega arith
share_positive (suc q) k r n whole rest_lt le = omega arith

no_shortcut : (n k : ℕ) → 0 < n → 0 < k → (n == 0 || k == 0) ≡ false
no_shortcut n k rows windows = ground arith

-- For rows and windows above zero, the split is into as many windows as asked for, or as there are
-- rows; they follow one another from the first row to the end, and each has at least one row, and
-- the rounded-down share of the rows or one more.
pub split_windows-IsChain :
    (n k : ℕ)
    → 0 < n
    → 0 < k
    → (length (split_windows n k) ≡ min k n)
      × (1 ≤ n / min k n)
      × IsChain (n / min k n) 0 n (split_windows n k)
unfolding split_windows
split_windows-IsChain n k rows windows =
    let k' : ℕ = min k n in
    let some_windows : 0 < k' = omega arith in
    let whole : n / k' * k' + n % k' ≡ n = div-add-mod' n k' in
    let rest_lt : n % k' < k' = mod-lt n some_windows in
    rw (no_shortcut n k rows windows) (
      length-windows_from (n / k') (n % k') 0 0 k',
      share_positive (n / k') k' (n % k') n whole rest_lt (omega arith),
      windows_from-IsChain (n / k') (n % k') 0 0 k' n (omega (arith, rest_lt))
          (omega (arith, whole)),
    )
