-- ===== src/Guard/Clearance.antt =====
-- What an approval of the entry guard says (live_order_final_guard.py).
use crypto_ai_system.Common.{
  String, Bool, true, false, not, ◌&&◌, some, [], ◌≡◌, ◌<◌, inl, inr, arith, Option-cases, ◌∙◌, ap,
}
use crypto_ai_system.Float.{Float, nought}
use crypto_ai_system.Ledger.{daily_loss_limit_breached}
use crypto_ai_system.Guard.Promotion.{live_promotion_ready}
use crypto_ai_system.Guard.RiskGate.{LiveIntent, GateBody, verify_live_risk_gate}
use crypto_ai_system.Guard.Terms.{Settings, Evidence, Verdict, Block, Repair, count_today}
use crypto_ai_system.Guard.Final.{
  flag_blocks, venue_blocks, cap_blocks, count_blocks, exposure_blocks, loss_block, effective_cap,
  notional_of, entry_blocks, entry_repairs, evaluate_live_order_final_guard,
}
use crypto_ai_system.Guard.Bounds.{
  IsBounded, append-nil, bounded, count_blocks-nil, last-nil, loss_block-nil, not-false,
  to_reasons-nil, verdict_of-approved, when-append, when-nil,
}

module _ {F : Type 0} ⦃f : Float F⦄ where
  -- The caps on one order and on the book, as numbers: neither cap is at or below 0, the order's cap
  -- is not above its ceiling, and the notional is positive and within both.
  pub record IsWithinCaps (s : Settings F) (exposure notional : F) : Type 0 where
    pub cap_set : f.le s.max_order_notional_usdt nought ≡ false
    pub cap_low : f.lt s.absolute_max_notional_usdt s.max_order_notional_usdt ≡ false
    pub notional_set : f.le notional nought ≡ false
    pub notional_low : f.lt s.max_order_notional_usdt notional ≡ false
    pub exposure_set : f.le s.max_open_notional_usdt nought ≡ false
    pub exposure_low : f.lt s.max_open_notional_usdt (f.add exposure notional) ≡ false

  low :
      (s : Settings F) (notional : F)
      → f.lt s.absolute_max_notional_usdt s.max_order_notional_usdt ≡ false
      → f.le notional nought ≡ false
      → (not (f.le notional nought) && f.lt (effective_cap s) notional) ≡ false
      → f.lt s.max_order_notional_usdt notional ≡ false
  low s notional a b h = ground arith

  exposure_blocks-nil :
      (s : Settings F) (exposure notional : F)
      → exposure_blocks s exposure notional ≡ []
      → (f.le s.max_open_notional_usdt nought ≡ false)
        × (f.lt s.max_open_notional_usdt (f.add exposure notional) ≡ false)
  unfolding exposure_blocks
  exposure_blocks-nil s exposure notional h = ground arith

  within :
      (s : Settings F) (exposure notional : F)
      → cap_blocks s notional ≡ []
      → exposure_blocks s exposure notional ≡ []
      → f.le notional nought ≡ false
      → IsWithinCaps s exposure notional
  unfolding cap_blocks
  within s exposure notional caps book set =
      let (a, t) =
        when-append (f.le s.max_order_notional_usdt nought) Block.cap_not_configured _ caps in
      let (b, c) =
        when-append (f.lt s.absolute_max_notional_usdt s.max_order_notional_usdt)
          Block.cap_above_ceiling _ t in
      let above =
        when-nil (not (f.le notional nought) && f.lt (effective_cap s) notional)
          Block.notional_above_cap (last-nil _ c) in
      let (d, e) = exposure_blocks-nil s exposure notional book in
      record {
        cap_set = a;
        cap_low = b;
        notional_set = set;
        notional_low = low s notional b set above;
        exposure_set = d;
        exposure_low = e;
      }

  module _ (sha256 : GateBody → String) where
    -- All that an entry needs.
    pub record IsCleared (s : Settings F) (e : Evidence F) (intent : LiveIntent F) (exposure : F)
        : Type 0 where
      pub is_bounded : IsBounded s intent
      pub no_kill : s.manual_kill_switch ≡ false
      pub no_breach :
          daily_loss_limit_breached (some s.daily_loss_limit_usdt) e.ledger e.day ≡ some false
      pub promoted : live_promotion_ready s.min_clean_canary_orders e.canary_orders ≡ true
      pub no_connectivity : intent.connectivity_test ≡ false
      pub within_caps : IsWithinCaps s exposure (notional_of intent)
      pub under_count : count_today e.counter e.day < s.max_daily_order_count
      pub gated : verify_live_risk_gate sha256 e.gates intent e.now ≡ []

    cleared :
        (s : Settings F) (e : Evidence F) (intent : LiveIntent F) (exposure : F) (breached : Bool)
        → daily_loss_limit_breached (some s.daily_loss_limit_usdt) e.ledger e.day ≡ some breached
        → entry_blocks sha256 s e intent exposure breached ≡ []
        → entry_repairs intent ≡ []
        → IsCleared s e intent exposure
    unfolding entry_blocks entry_repairs
    cleared s e intent exposure breached hb hs hr =
        let (flags, t1) = append-nil (flag_blocks s) _ hs in
        let (kill, t2) = when-append s.manual_kill_switch Block.kill_switch_engaged _ t1 in
        let (loss, t3) = append-nil (loss_block s.daily_loss_limit_usdt breached) _ t2 in
        let (promo, t4) =
          when-append (not (live_promotion_ready s.min_clean_canary_orders e.canary_orders))
            Block.promotion_not_ready _ t3 in
        let (conn, t5) = when-append intent.connectivity_test Block.connectivity_intent _ t4 in
        let (venue, t6) = append-nil (venue_blocks s) _ t5 in
        let (caps, t7) = append-nil (cap_blocks s (notional_of intent)) _ t6 in
        let (daily, t8) =
          append-nil (count_blocks s.max_daily_order_count (count_today e.counter e.day)) _ t7 in
        let (book, gate) = append-nil (exposure_blocks s exposure (notional_of intent)) _ t8 in
        let (set, shape) =
          when-append (f.le (notional_of intent) nought) Repair.notional_missing _ hr in
        record {
          is_bounded = bounded s intent flags venue (last-nil _ shape);
          no_kill = kill;
          no_breach = hb ∙ ap some (loss_block-nil s.daily_loss_limit_usdt breached loss);
          promoted = not-false _ promo;
          no_connectivity = conn;
          within_caps = within s exposure (notional_of intent) caps book set;
          under_count = count_blocks-nil _ _ daily;
          gated = to_reasons-nil _ (last-nil _ gate);
        }

    -- An entry is approved only where the boundary is on and the intent well formed, the kill switch
    -- is off, the daily-loss breaker has answered and is not breached, promotion holds, the intent is
    -- no connectivity test, the order is within its caps and the book's, the day's count is below its
    -- cap, and the risk gate gives no reason against it.
    pub evaluate_live_order_final_guard-approved :
        (s : Settings F) (e : Evidence F) (intent : LiveIntent F) (exposure : F) {v : Verdict}
        → evaluate_live_order_final_guard sha256 s e intent exposure ≡ some v
        → v.approved ≡ true
        → IsCleared s e intent exposure
    unfolding evaluate_live_order_final_guard
    evaluate_live_order_final_guard-approved s e intent exposure h ok =
        elim (Option-cases
          (daily_loss_limit_breached (some s.daily_loss_limit_usdt) e.ledger e.day)) [
            | inl none_found ↦ ground arith
            | inr (breached, found) ↦
                let (bs, rs) =
                  verdict_of-approved (entry_blocks sha256 s e intent exposure breached)
                    (entry_repairs intent) (ground arith) in
                cleared s e intent exposure breached found bs rs
          ]
