-- ===== src/Permission/Direction.antt =====
-- A permission to enter names a side that is itself permitted, and a size (permission_gate.py).
use crypto_ai_system.Common.{
  concat-nil, when-nil, String, Bool, true, false, not, ◌&&◌, ◌||◌, List, ap, if◌then◌else◌, [],
  ◌∷◌, ◌≡◌, refl,
}
use crypto_ai_system.Float.{Float, positive, nought}
use crypto_ai_system.PreOrder.{Python}
use crypto_ai_system.Permission.{
  Signal, Side, Level, is_long, is_short, is_blocked, is_nil, multiplier_of, infer_side, level_of,
  long_granted, short_granted, block_lists, blocks_of, is_allowed, evaluate_trade_permission,
}

is_nil_eq : (xs : List String) → is_nil xs ≡ true → xs ≡ []
is_nil_eq [] h = refl
is_nil_eq (x ∷ xs) h = cc

and_both : (a b : Bool) → (a && b) ≡ true → (a ≡ true) × (b ≡ true)
and_both true b h = (refl, h)
and_both false b h = cc

kept_level :
    (allowed nil : Bool) (level : Level)
    → allowed ≡ true
    → is_blocked level ≡ false
    → is_blocked (if not allowed && not nil then Level.blocked else level) ≡ false
kept_level true nil level a h = h
kept_level false nil level a h = cc

kept_size :
    {F : Type 0}
    → ⦃f : Float F⦄ → (allowed : Bool) (size other : F) → allowed ≡ true
    → positive size ≡ true
    → positive (if allowed then size else other) ≡ true
kept_size true size other a h = h
kept_size false size other a h = cc

-- The flag of the side that is entered.
abbrev pub flag_of : Side → Bool → Bool → Bool
flag_of Side.long long short = long
flag_of Side.short long short = short
flag_of Side.flat long short = false

flag_of-entered :
    (side : Side) (allowed nil l r : Bool)
    → allowed ≡ true
    → nil ≡ true
    → (is_long side && not l) ≡ false
    → (is_short side && not r) ≡ false
    → not (is_long side || is_short side) ≡ false
    → flag_of
        (if allowed then side else Side.flat)
        (l && nil && is_long side)
        (r && nil && is_short side)
      ≡ true
flag_of-entered side false nil l r a n h k e = cc
flag_of-entered side true false l r a n h k e = cc
flag_of-entered Side.long true true true r a n h k e = refl
flag_of-entered Side.long true true false r a n h k e = cc
flag_of-entered Side.short true true l true a n h k e = refl
flag_of-entered Side.short true true l false a n h k e = cc
flag_of-entered Side.flat true true l r a n h k e = cc

module _ {F : Type 0} ⦃f : Float F⦄ (python : Python F) (x : Signal F) where
  blocks_of-nil :
      blocks_of python x ≡ []
      → (is_blocked (level_of python x) ≡ false)
        × ((is_long (infer_side python x) && not (long_granted python x)) ≡ false)
        × ((is_short (infer_side python x) && not (short_granted python x)) ≡ false)
        × (not (is_long (infer_side python x) || is_short (infer_side python x)) ≡ false)
  unfolding blocks_of
  blocks_of-nil h =
      let lists = concat-nil (block_lists python x) h in
      (
        when-nil _ "RESEARCH_SIGNAL_RISK_LEVEL_BLOCKED" lists.1.1.0,
        when-nil _ "RESEARCH_SIGNAL_DISALLOWS_LONG" lists.1.1.1.1.0,
        when-nil _ "RESEARCH_SIGNAL_DISALLOWS_SHORT" lists.1.1.1.1.1.0,
        when-nil _ "RESEARCH_SIGNAL_NO_DIRECTIONAL_ENTRY" lists.1.1.1.1.1.1.0,
      )

  is_allowed-parts :
      is_allowed python x ≡ true
      → (blocks_of python x ≡ []) × (positive (multiplier_of x (level_of python x)) ≡ true)
  unfolding is_allowed
  is_allowed-parts h =
      let parts = and_both _ (positive (multiplier_of x (level_of python x))) h in
      let more = and_both _ (is_nil (blocks_of python x)) parts.0 in (is_nil_eq _ more.1, parts.1)

  evaluate-directed :
      is_allowed python x ≡ true
      → let d = evaluate_trade_permission python x in
        flag_of d.side d.allow_long d.allow_short ≡ true
  unfolding evaluate_trade_permission
  evaluate-directed h =
      let none_left = (is_allowed-parts h).0 in
      let facts = blocks_of-nil none_left in
      flag_of-entered (infer_side python x) (is_allowed python x) (is_nil (blocks_of python x))
        (long_granted python x) (short_granted python x) h (ap is_nil none_left) facts.1 facts.2
        facts.3

  -- An entry that is allowed is of a side, and that side is permitted; its size is positive; its
  -- risk level is not blocked; and no reason is named against it.
  pub evaluate_trade_permission_allowed :
      let d = evaluate_trade_permission python x in
      d.entry_allowed ≡ true
      → (flag_of d.side d.allow_long d.allow_short ≡ true)
        × (positive d.position_size_multiplier ≡ true)
        × (is_blocked d.risk_level ≡ false)
        × (d.block_reasons ≡ [])
  unfolding evaluate_trade_permission
  evaluate_trade_permission_allowed h =
      let parts = is_allowed-parts h in
      (
        evaluate-directed h,
        kept_size (is_allowed python x) (multiplier_of x (level_of python x)) nought h parts.1,
        kept_level (is_allowed python x) (is_nil (blocks_of python x)) (level_of python x) h
            (blocks_of-nil parts.0).0,
        parts.0,
      )
