-- ===== src/Permission.antt =====
-- The permission of a research signal to trade (src/crypto_ai_system/trading/permission_gate.py).
-- Reasons stand in the order in which they are found, and may repeat; the warnings, the texts of
-- `reasons` and the identifiers are left out.
pub mod Direction
use crypto_ai_system.Common.{
  when, String, Bool, true, false, not, ◌&&◌, ◌||◌, Option, none, some, List, [], ◌∷◌, ◌++◌, map,
  keep, concat, str_eq, if◌then◌else◌,
}
use crypto_ai_system.Common.Int.{pos}
use crypto_ai_system.Float.{Float, nought, positive}
use crypto_ai_system.Text.{codes, lower, strip}
use crypto_ai_system.PreOrder.{
  Value, missing, null, flag, text, num, Mapping, Python, is_stage, has_key, truthy_value, or_value,
  to_float,
}

-- What a list of reasons may be in a signal: a collection, or any other value.
pub data Reasons (F : Type 0) : Type 0 where
  many : List (Value F) → Reasons F
  single : Value F → Reasons F

pub data Side : Type 0 where
  long short flat : Side

pub data Level : Type 0 where
  normal reduced blocked : Level

-- The signal, its `trade_permission` (without keys where it has none) and the configuration.
pub record Signal (F : Type 0) : Type 0 where
  pub signal : Mapping F
  pub permission : Mapping F
  -- `bool(permission)`
  pub permission_given : Bool
  pub signal_reasons : Reasons F
  pub permission_reasons : Reasons F
  pub config : Mapping F

pub record Decision (F : Type 0) : Type 0 where
  pub permission_gate_applied : Bool
  pub side : Side
  pub entry_allowed : Bool
  pub allow_long : Bool
  pub allow_short : Bool
  pub allow_new_position : Bool
  pub risk_level : Level
  pub position_size_multiplier : F
  pub confidence : F
  pub block_reasons : List String

abbrev pub is_long : Side → Bool
is_long long = true
is_long _ = false

abbrev pub is_short : Side → Bool
is_short short = true
is_short _ = false

abbrev pub is_blocked : Level → Bool
is_blocked blocked = true
is_blocked _ = false

abbrev pub is_nil : List String → Bool
is_nil [] = true
is_nil (x ∷ rest) = false

-- `_infer_side`, where the side is not named
abbrev side_from : Bool → Bool → Side
side_from true false = Side.long
side_from false true = Side.short
side_from _ _ = Side.flat

module _ {F : Type 0} ⦃f : Float F⦄ where
  -- `max(0.0, min(1.0, x))`
  abbrev clamp : F → F
  clamp x =
      let one = f.of_int (pos 1) in
      let low = if f.lt x one then x else one in if positive low then low else nought

  unfoldable pub multiplier_of : Signal F → Level → F
  unfolding to_float
  multiplier_of x Level.blocked =
      clamp (to_float (x.config "trading.risk_level_blocked_position_multiplier") nought)
  multiplier_of x Level.reduced = clamp (
      to_float (x.config "trading.risk_level_reduced_position_multiplier")
        (f.div (f.of_int (pos 1)) (f.of_int (pos 2))))
  multiplier_of x Level.normal = clamp (f.of_int (pos 1))

  unfoldable pub confidence_of : Signal F → F
  unfolding to_float
  confidence_of x =
      let raw = to_float (or_value (x.signal "entry_confidence") (x.signal "confidence")) nought in
      let scaled = f.div raw (f.of_int (pos 100)) in
      clamp (if f.lt (f.of_int (pos 1)) raw then scaled else raw)

  module _ (python : Python F) where
    -- `_to_bool`
    unfoldable pub to_bool : Value F → Bool → Bool
    to_bool missing default = default
    to_bool null default = default
    to_bool (flag b) default = b
    to_bool (num x) default = truthy_value (num x)
    to_bool (text s) default =
        is_stage ("1" ∷ "true" ∷ "yes" ∷ "y" ∷ "on" ∷ "allowed" ∷ []) (lower (strip (codes s)))

    -- `_as_list`
    unfoldable pub as_list : Reasons F → List String
    as_list (many values) = keep (λ s. not (str_eq s "")) (map python.text_of values)
    as_list (single missing) = []
    as_list (single null) = []
    as_list (single (text s)) = if str_eq s "" then [] else s ∷ []
    as_list (single v) = python.text_of v ∷ []

    -- `_infer_side`; an ASCII text is `LONG` in capitals where it is `long` in small letters.
    unfoldable pub infer_side : Signal F → Side
    unfolding to_bool
    infer_side x =
        let s = x.signal in
        let named =
          or_value (or_value (or_value (s "entry_side") (s "side")) (s "signal")) (text "FLAT") in
        let letters = lower (codes (python.text_of named)) in
        if is_stage ("long" ∷ []) letters
        then Side.long
        else if is_stage ("short" ∷ []) letters
        then Side.short
        else side_from (to_bool (x.permission "allow_long") false)
            (to_bool (x.permission "allow_short") false)

    unfoldable pub level_of : Signal F → Level
    level_of x =
        let named = or_value (x.permission "risk_level") (x.signal "risk_level") in
        let letters = lower (codes (python.text_of (or_value named (text "normal")))) in
        if is_stage ("blocked" ∷ []) letters
        then Level.blocked
        else if is_stage ("reduced" ∷ []) letters
        then Level.reduced
        else Level.normal

    abbrev pub entry_granted : Signal F → Bool
    entry_granted x =
        to_bool (x.signal "entry_allowed") (to_bool (x.permission "allow_new_position") false)

    abbrev pub position_granted : Signal F → Bool
    position_granted x = to_bool (x.permission "allow_new_position") (entry_granted x)

    abbrev pub long_granted : Signal F → Bool
    long_granted x = to_bool (x.permission "allow_long") (is_long (infer_side x) && entry_granted x)

    abbrev pub short_granted : Signal F → Bool
    short_granted x =
        to_bool (x.permission "allow_short") (is_short (infer_side x) && entry_granted x)

    -- The reasons against an entry.
    abbrev pub block_lists : Signal F → List (List String)
    block_lists x =
        as_list x.signal_reasons
        ∷ as_list x.permission_reasons
        ∷ when (is_blocked (level_of x)) "RESEARCH_SIGNAL_RISK_LEVEL_BLOCKED"
        ∷ when (not (position_granted x)) "RESEARCH_SIGNAL_DISALLOWS_NEW_POSITION"
        ∷ when (is_long (infer_side x) && not (long_granted x)) "RESEARCH_SIGNAL_DISALLOWS_LONG"
        ∷ when (is_short (infer_side x) && not (short_granted x)) "RESEARCH_SIGNAL_DISALLOWS_SHORT"
        ∷ when (not (is_long (infer_side x) || is_short (infer_side x)))
            "RESEARCH_SIGNAL_NO_DIRECTIONAL_ENTRY"
        ∷ when (not (entry_granted x)) "RESEARCH_SIGNAL_ENTRY_NOT_ALLOWED"
        ∷ []

    unfoldable pub blocks_of : Signal F → List String
    unfolding to_bool as_list infer_side level_of
    blocks_of x = concat (block_lists x)

    abbrev pub applied : Signal F → Bool
    applied x =
        x.permission_given || has_key (x.signal "entry_allowed") || has_key (x.signal "entry_side")

    -- `allowed`
    unfoldable pub is_allowed : Signal F → Bool
    unfolding to_bool infer_side level_of blocks_of multiplier_of
    is_allowed x =
        applied x
        && (is_long (infer_side x) || is_short (infer_side x))
        && entry_granted x
        && position_granted x
        && is_nil (blocks_of x)
        && positive (multiplier_of x (level_of x))

    unfoldable pub evaluate_trade_permission : Signal F → Decision F
    unfolding to_bool infer_side level_of blocks_of multiplier_of is_allowed confidence_of
    evaluate_trade_permission x = record {
      permission_gate_applied = applied x;
      side = if is_allowed x then infer_side x else Side.flat;
      entry_allowed = is_allowed x;
      allow_long = long_granted x && is_nil (blocks_of x) && is_long (infer_side x);
      allow_short = short_granted x && is_nil (blocks_of x) && is_short (infer_side x);
      allow_new_position = is_allowed x;
      risk_level =
          if not (is_allowed x) && not (is_nil (blocks_of x)) then Level.blocked else level_of x;
      position_size_multiplier = if is_allowed x then multiplier_of x (level_of x) else nought;
      confidence = confidence_of x;
      block_reasons = blocks_of x;
    }
