-- ===== src/Ledger/Breaker.antt =====
-- The daily-loss breaker of live_pnl_ledger.py: closed by default, and latched for the day.
use crypto_ai_system.Common.{
  str_eq, if◌then◌else◌, ℕ, String, true, false, Option, none, some, List, [], ◌∷◌, ◌++◌, ◌≡◌, refl,
  arith, sym, ap, ◌⊎◌, Bool-cases, ◌∙◌, inl, inr,
}
use mathlib.Core.Option.{some-injective}
use crypto_ai_system.Float.{Float, num, nought}
use crypto_ai_system.Registry.{load_registry_records}
use crypto_ai_system.Registry.Integrity.{load-append}
use crypto_ai_system.Ledger.{
  LiveOutcome, Ledger, record_live_outcome, realized_of, prefix, stamp, add_outcome, sum_outcomes,
  day_total, live_daily_realized_pnl_usdt, at_floor, loss_floor, daily_loss_limit_breached,
}

-- What the latch uses of IEEE arithmetic: the order is transitive, adding a loss does not raise a
-- sum that is a number, rounding keeps the order and makes no number of a NaN, and 0.0 is a number.
pub record IsMonotone (F : Type 0) ⦃f : Float F⦄ : Type 0 where
  pub le_trans : (a b c : F) → f.le a b ≡ true → f.le b c ≡ true → f.le a c ≡ true
  pub add-le :
      (a b : F)
      → f.le b nought ≡ true
      → f.le (f.add a b) (f.add a b) ≡ true
      → f.le (f.add a b) a ≡ true
  pub round_mono : (d : ℕ) (a b : F) → f.le a b ≡ true → f.le (f.round d a) (f.round d b) ≡ true
  pub round_number : (d : ℕ) (a : F) → f.le (f.round d a) (f.round d a) ≡ true → f.le a a ≡ true
  pub nought_number : f.le nought nought ≡ true

module _ {F : Type 0} ⦃f : Float F⦄ where
  sum_outcomes-append :
      (day : String) (total : F) (rows : List (LiveOutcome F)) (o : LiveOutcome F)
      → sum_outcomes day total (rows ++ o ∷ []) ≡ add_outcome day (sum_outcomes day total rows) o
  unfolding sum_outcomes
  sum_outcomes-append day total [] o = refl
  sum_outcomes-append day total (r ∷ rows) o =
      sum_outcomes-append day (add_outcome day total r) rows o

  -- What the sum of a day becomes.
  record_live_outcome-total :
      (ledger : Ledger F) (realized : F) (o : LiveOutcome F) (day : String) {ledger' : Ledger F}
      {rows : List (LiveOutcome F)}
      → load_registry_records ledger ≡ some rows
      → record_live_outcome ledger realized o ≡ some ledger'
      → let written = record o { realized_pnl_usdt = num (f.round 8 realized) } in
        live_daily_realized_pnl_usdt ledger' day
        ≡ some (f.round 8 (add_outcome day (sum_outcomes day nought rows) written))
  unfolding record_live_outcome live_daily_realized_pnl_usdt
  record_live_outcome-total ledger realized o day {rows = rows} loaded recorded =
      let written : LiveOutcome F = record o { realized_pnl_usdt = num (f.round 8 realized) } in
      let (after, _, _) = load-append ledger true written recorded in
      rw (after, loaded, sum_outcomes-append day nought rows written) refl

  -- On a registry that a read accepts, recording an outcome adds its rounded amount, or 0.0 where it
  -- equals that, to the unrounded sum of the day that its closing time begins with, or, where it
  -- has none, the time of its append; the sum of any other day stays.
  pub record_live_outcome-sum :
      (ledger : Ledger F) (realized : F) (o : LiveOutcome F) (day : String) {ledger' : Ledger F}
      {rows : List (LiveOutcome F)}
      → load_registry_records ledger ≡ some rows
      → record_live_outcome ledger realized o ≡ some ledger'
      → let amount = f.round 8 realized in
        let before = sum_outcomes day nought rows in
        (live_daily_realized_pnl_usdt ledger day ≡ some (f.round 8 before))
        × (live_daily_realized_pnl_usdt ledger' day
            ≡ some (
                f.round 8 (
                  if str_eq (prefix 10 (stamp o)) day
                  then f.add before (if f.eq amount nought then nought else amount)
                  else before)))
  unfolding live_daily_realized_pnl_usdt add_outcome realized_of
  record_live_outcome-sum ledger realized o day {rows = rows} loaded recorded =
      (rw loaded refl, record_live_outcome-total ledger realized o day loaded recorded)

  module _ (laws : IsMonotone F) where
    open laws use {le_trans, add-le, round_mono, round_number, nought_number}

    add_outcome-le :
        (day : String) (total x : F) (o : LiveOutcome F)
        → o.realized_pnl_usdt ≡ num x
        → f.le x nought ≡ true
        → f.le (add_outcome day total o) (add_outcome day total o) ≡ true
        → (add_outcome day total o ≡ total) ⊎ (f.le (add_outcome day total o) total ≡ true)
    unfolding add_outcome realized_of
    add_outcome-le day total x o e loss number =
        ground (arith, add-le total x loss, add-le total nought nought_number)

    -- A loss leaves a rounded sum below a floor that it was below.
    add_outcome-floor :
        (day : String) (total x floor : F) (o : LiveOutcome F)
        → o.realized_pnl_usdt ≡ num x
        → f.le x nought ≡ true
        → f.le (f.round 8 (add_outcome day total o)) (f.round 8 (add_outcome day total o)) ≡ true
        → f.le (f.round 8 total) floor ≡ true
        → f.le (f.round 8 (add_outcome day total o)) floor ≡ true
    add_outcome-floor day total x floor o e loss number below =
        let after : F = add_outcome day total o in
        elim (add_outcome-le day total x o e loss (round_number 8 after number)) [
          | inl same ↦ rw same below
          | inr lower ↦
              le_trans (f.round 8 after) (f.round 8 total) floor (round_mono 8 after total lower)
                below
        ]

    at_floor-true :
        (limit : F) (sum : Option F)
        → at_floor limit sum ≡ some true
        → (x : F) × (sum ≡ some x) × (f.le x (loss_floor limit) ≡ true)
    at_floor-true limit none h = cc
    at_floor-true limit (some x) h = (x, refl, some-injective _ _ h)

    day_total-some :
        (day : String) (rows : Option (List (LiveOutcome F))) {x : F}
        → day_total day rows ≡ some x
        → (rs : List (LiveOutcome F)) × (rows ≡ some rs)
          × (f.round 8 (sum_outcomes day nought rs) ≡ x)
    day_total-some day none h = cc
    day_total-some day (some rs) h = (rs, refl, some-injective _ _ h)

    latches :
        (ledger : Ledger F) (limit realized sum : F) (o : LiveOutcome F) (day : String)
        {ledger' : Ledger F}
        → at_floor limit (live_daily_realized_pnl_usdt ledger day) ≡ some true
        → f.le (f.round 8 realized) nought ≡ true
        → record_live_outcome ledger realized o ≡ some ledger'
        → live_daily_realized_pnl_usdt ledger' day ≡ some sum
        → f.le sum sum ≡ true
        → f.le sum (loss_floor limit) ≡ true
    latches ledger limit realized sum o day tripped loss recorded summed number =
        let (x, before, below) = at_floor-true limit _ tripped in
        let (rows, loaded, total) =
          day_total-some day (load_registry_records ledger) {x = x}
            (unfold live_daily_realized_pnl_usdt in before) in
        let after = record_live_outcome-total ledger realized o day loaded recorded in
        let same = some-injective _ _ (sym after ∙ summed) in
        rw (← same) (
          add_outcome-floor day _ (f.round 8 realized) (loss_floor limit) _ refl loss
            (rw same number) (rw total below))

    -- Over an arithmetic with these laws, once the breaker is tripped, recording a further loss
    -- leaves it tripped for the day, as long as the sum stays a number.
    pub daily_loss_limit_breached_latches :
        (ledger : Ledger F) (limit realized sum : F) (o : LiveOutcome F) (day : String)
        {ledger' : Ledger F}
        → daily_loss_limit_breached (some limit) ledger day ≡ some true
        → f.le (f.round 8 realized) nought ≡ true
        → record_live_outcome ledger realized o ≡ some ledger'
        → live_daily_realized_pnl_usdt ledger' day ≡ some sum
        → f.le sum sum ≡ true
        → daily_loss_limit_breached (some limit) ledger' day ≡ some true
    unfolding daily_loss_limit_breached
    daily_loss_limit_breached_latches ledger limit realized sum o day tripped loss recorded summed
          number =
        elim (Bool-cases (f.le limit nought)) [
          | inl unset ↦ rw unset
          | inr set ↦
              rw (set, summed)
                (ap some (
                  latches ledger limit realized sum o day (rw set at tripped) loss recorded summed
                    number))
        ]

  -- A limit that is missing or not above zero counts as breached, also over a registry that cannot
  -- be read; over such a registry a set limit gives no verdict, and otherwise the verdict is
  -- whether the day's rounded sum is at or below the negated limit.
  pub daily_loss_limit_breached_lem :
      (limit : F) (ledger : Ledger F) (day : String)
      → (daily_loss_limit_breached none ledger day ≡ some true)
        × (f.le limit nought ≡ true → daily_loss_limit_breached (some limit) ledger day ≡ some true)
        × (f.le limit nought ≡ false
            → load_registry_records ledger ≡ none
            → daily_loss_limit_breached (some limit) ledger day ≡ none)
        × ((rows : List (LiveOutcome F))
            → f.le limit nought ≡ false
            → load_registry_records ledger ≡ some rows
            → daily_loss_limit_breached (some limit) ledger day
              ≡ some (f.le (f.round 8 (sum_outcomes day nought rows)) (loss_floor limit)))
  unfolding daily_loss_limit_breached live_daily_realized_pnl_usdt
  daily_loss_limit_breached_lem limit ledger day =
      (refl, λ h. rw h, λ h e. rw (h, e), λ rows h e. rw (h, e))
