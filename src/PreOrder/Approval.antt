-- ===== src/PreOrder/Approval.antt =====
-- The pre-order risk gate approves nothing that it has a reason against (pre_order_risk_gate.py).
use crypto_ai_system.Common.{
  concat-nil, when-nil, ℕ, Bool, true, false, ◌&&◌, ◌||◌, List, [], ◌∷◌, ◌≡◌, refl, arith, any,
  get_or,
}
use crypto_ai_system.Float.{Float}
use crypto_ai_system.PreOrder.{
  Block, Status, Python, block_code, same_block, status_table, first_status, status_for_blocks,
  is_pass, is_true, to_int,
}
use crypto_ai_system.PreOrder.Checks.{
  Inputs, stage_of, limit_blocks, limit_lists, market_blocks, market_lists,
}
use crypto_ai_system.Common.Int.{pos, leb_ℤ}
use crypto_ai_system.PreOrder.Evaluate.{
  blocks_of, block_lists, long_allowed, short_allowed, new_allowed, evaluate_pre_order_risk_gate,
}

-- Every reason is one of those that the status is decided by.
covers : List (List Block × Status) → Block → Bool
covers table b = any (λ (r : List Block × Status). any (same_block b) r.0) table

status_table-covers : (b : Block) → covers status_table b ≡ true
unfolding covers status_table block_code
status_table-covers Block.chain_decision_id_missing = refl
status_table-covers Block.chain_research_signal_id_missing = refl
status_table-covers Block.chain_profile_id_missing = refl
status_table-covers Block.approved_profile = refl
status_table-covers Block.profile_hash = refl
status_table-covers Block.profile_hash_missing = refl
status_table-covers Block.data_freshness = refl
status_table-covers Block.sample_data = refl
status_table-covers Block.synthetic_data = refl
status_table-covers Block.fallback_data = refl
status_table-covers Block.optional_data_stale = refl
status_table-covers Block.optional_data_missing = refl
status_table-covers Block.optional_data_health = refl
status_table-covers Block.position_limit = refl
status_table-covers Block.daily_loss_limit = refl
status_table-covers Block.max_consecutive_loss = refl
status_table-covers Block.daily_order_count = refl
status_table-covers Block.spread_slippage = refl
status_table-covers Block.slippage_evidence_missing = refl
status_table-covers Block.api_error_rate = refl
status_table-covers Block.reconciliation_mismatch = refl
status_table-covers Block.manual_kill_switch = refl
status_table-covers Block.min_order_size = refl
status_table-covers Block.max_order_notional = refl
status_table-covers Block.fee_model = refl
status_table-covers Block.balance_margin = refl
status_table-covers Block.leverage_limit = refl
status_table-covers Block.venue_readiness = refl
status_table-covers Block.stage_execution_disabled = refl
status_table-covers Block.trade_permission = refl

IsBlocking : List (List Block × Status) → Type 0
IsBlocking [] = Unit
IsBlocking (r ∷ rest) = (is_pass r.1 ≡ false) × IsBlocking rest

status_table-IsBlocking : IsBlocking status_table
unfolding IsBlocking status_table is_pass
status_table-IsBlocking = (
  refl,
  (
    refl,
    (
      refl,
      (
        refl,
        (
          refl,
          (
            refl,
            (
              refl,
              (
                refl,
                (
                  refl,
                  (
                    refl,
                    (
                      refl,
                      (
                        refl,
                        (
                          refl,
                          (
                            refl,
                            (
                              refl,
                              (
                                refl,
                                (refl, (refl, (refl, (refl, (refl, (refl, (refl, (refl, tt)))))))),
                              ),
                            ),
                          ),
                        ),
                      ),
                    ),
                  ),
                ),
              ),
            ),
          ),
        ),
      ),
    ),
  ),
)

-- The first status for a list that begins with a covered reason is there, and no pass.
first_status-blocks :
    (table : List (List Block × Status)) (b : Block) (rest : List Block) (pass : Status)
    → IsBlocking table
    → covers table b ≡ true
    → is_pass (get_or (first_status table (b ∷ rest)) pass) ≡ false
unfolding IsBlocking covers
first_status-blocks [] b rest pass blocking h = cc
first_status-blocks ((names, status) ∷ table) b rest pass (no_pass, blocking) h =
    ground (arith, no_pass, first_status-blocks table b rest pass blocking)

status_for_blocks-blocks :
    (b : Block) (rest : List Block) (stage : List ℕ)
    → is_pass (status_for_blocks (b ∷ rest) stage) ≡ false
unfolding status_for_blocks
status_for_blocks-blocks b rest stage =
    first_status-blocks status_table b rest _ status_table-IsBlocking (status_table-covers b)

no_blocks :
    (blocks : List Block) (stage : List ℕ)
    → is_pass (status_for_blocks blocks stage) ≡ true
    → blocks ≡ []
no_blocks [] stage h = refl
no_blocks (b ∷ rest) stage h = cc (h, status_for_blocks-blocks b rest stage)

passes : (p n l r : Bool) → (p && n && (l || r)) ≡ true → p ≡ true
passes true n l r h = refl
passes false n l r h = cc

either_side :
    (p n l r : Bool)
    → (p && n && (l || r)) ≡ true
    → (((p && n && (l || r)) && l) || ((p && n && (l || r)) && r)) ≡ true
either_side false n l r h = cc
either_side true false l r h = cc
either_side true true true r h = refl
either_side true true false true h = refl
either_side true true false false h = cc

module _ {F : Type 0} ⦃f : Float F⦄ (python : Python F) (x : Inputs F) where
  -- The number of open positions and of losses in a row are below their limits.
  abbrev WithinCounts : Type 0
  WithinCounts =
      (leb_ℤ (to_int python (x.config "max_open_positions") (pos 1))
          (to_int python (x.runtime "open_positions") (pos 0))
        ≡ false)
      × (leb_ℤ (to_int python (x.config "max_consecutive_losses") (pos 3))
            (to_int python (x.runtime "consecutive_losses") (pos 0))
          ≡ false)

  limit_blocks-nil : limit_blocks python x ≡ [] → WithinCounts
  unfolding limit_blocks
  limit_blocks-nil h =
      let lists = concat-nil (limit_lists python x) h in
      (when-nil _ Block.position_limit lists.0, when-nil _ Block.max_consecutive_loss lists.1.1.1.0)

  market_blocks-nil :
      market_blocks x ≡ []
      → (is_true (x.runtime "manual_kill_switch")
          || is_true (x.runtime "manual_kill_switch_active"))
        ≡ false
  unfolding market_blocks
  market_blocks-nil h =
      let lists = concat-nil (market_lists x) h in
      when-nil _ Block.manual_kill_switch lists.1.1.1.1.0

  blocks_of-nil : blocks_of python x ≡ [] → (limit_blocks python x ≡ []) × (market_blocks x ≡ [])
  unfolding blocks_of
  blocks_of-nil h =
      let lists = concat-nil (block_lists python x) h in (lists.1.1.1.0, lists.1.1.1.1.0)

  approved-blocks :
      (evaluate_pre_order_risk_gate python x).approved ≡ true → blocks_of python x ≡ []
  unfolding evaluate_pre_order_risk_gate
  approved-blocks h =
      no_blocks _ (stage_of python x)
        (passes _ (new_allowed x) (long_allowed x) (short_allowed x) h)

  -- An approved gate names no reason against the order; it lets a long or a short position be
  -- opened; the open positions and the losses in a row are below their limits; and no manual kill
  -- switch is on.
  pub evaluate_pre_order_risk_gate_approved :
      (evaluate_pre_order_risk_gate python x).approved ≡ true
      → ((evaluate_pre_order_risk_gate python x).block_reasons ≡ [])
        × (((evaluate_pre_order_risk_gate python x).allow_long
              || (evaluate_pre_order_risk_gate python x).allow_short)
            ≡ true)
        × WithinCounts
        × ((is_true (x.runtime "manual_kill_switch")
              || is_true (x.runtime "manual_kill_switch_active"))
            ≡ false)
  unfolding evaluate_pre_order_risk_gate
  evaluate_pre_order_risk_gate_approved h =
      let none_left = approved-blocks h in
      let parts = blocks_of-nil none_left in
      (
        none_left,
        either_side (is_pass (status_for_blocks (blocks_of python x) (stage_of python x)))
            (new_allowed x) (long_allowed x) (short_allowed x) h,
        limit_blocks-nil parts.0,
        market_blocks-nil parts.1,
      )
