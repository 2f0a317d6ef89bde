-- ===== src/Guard/Bounds.antt =====
-- What an approval of the close guard says, and the lemmas on lists of blocks (live_order_final_guard.py).
use crypto_ai_system.Common.{
  ℕ, zero, suc, Bool, true, false, not, List, [], ◌∷◌, ◌++◌, concat, ◌≡◌, ◌<◌, refl, arith,
}
use crypto_ai_system.Float.{Float, num, nought, or_else}
use crypto_ai_system.Guard.RiskGate.{LiveIntent, GateReason, is_present, when}
use crypto_ai_system.Guard.Terms.{
  Settings, Block, Repair, no_host, no_key, not_ready, to_reasons, not_reduce_only,
}
use crypto_ai_system.Guard.Final.{
  verdict_of, flag_blocks, venue_blocks, count_blocks, loss_block, confirmation_present, float_of,
  quantity_repair, shape_repairs, evaluate_live_close_guard,
}

pub append-nil : {A : Type 0} (xs ys : List A) → xs ++ ys ≡ [] → (xs ≡ []) × (ys ≡ [])
append-nil [] ys h = (refl, h)
append-nil (x ∷ xs) ys h = ground arith

pub when-nil : {A : Type 0} (b : Bool) (a : A) → when b a ≡ [] → b ≡ false
when-nil false a h = refl
when-nil true a h = ground arith

pub last-nil : {A : Type 0} (xs : List A) → xs ++ [] ≡ [] → xs ≡ []
last-nil xs h = (append-nil xs [] h).0

pub when-append :
    {A : Type 0} (b : Bool) (a : A) (rest : List A)
    → when b a ++ rest ≡ []
    → (b ≡ false) × (rest ≡ [])
when-append false a rest h = (refl, h)
when-append true a rest h = ground arith

pub not-false : (b : Bool) → not b ≡ false → b ≡ true
not-false true h = refl
not-false false h = ground arith

pub to_reasons-nil : (rs : List GateReason) → to_reasons rs ≡ [] → rs ≡ []
to_reasons-nil [] h = refl
to_reasons-nil (r ∷ rs) h = ground arith

pub verdict_of-approved :
    (bs : List Block) (rs : List Repair)
    → (verdict_of bs rs).approved ≡ true
    → (bs ≡ []) × (rs ≡ [])
unfolding verdict_of
verdict_of-approved [] [] h = (refl, refl)
verdict_of-approved [] (r ∷ rs) h = ground arith
verdict_of-approved (b ∷ bs) rs h = ground arith

pub count_blocks-nil : (cap submitted : ℕ) → count_blocks cap submitted ≡ [] → submitted < cap
unfolding count_blocks
count_blocks-nil zero submitted h = ground arith
count_blocks-nil (suc n) submitted h = ground arith

module _ {F : Type 0} ⦃f : Float F⦄ where
  -- What both guards ask for: the switches, the phrase, the host, the key, and a well-formed intent.
  pub record IsBounded (s : Settings F) (intent : LiveIntent F) : Type 0 where
    pub enabled : s.order_enabled ≡ true
    pub place_enabled : s.place_order_enabled ≡ true
    pub confirmed : confirmation_present s ≡ true
    pub host : no_host s.base_url_host ≡ false
    pub key : no_key s.api_key s.api_secret ≡ false
    pub created : not_ready intent.status ≡ false
    pub symbol : is_present intent.symbol ≡ true
    pub quantity : quantity_repair (float_of (or_else intent.quantity (num nought))) ≡ []

  flag_blocks-nil :
      (s : Settings F)
      → flag_blocks s ≡ []
      → (s.order_enabled ≡ true) × (s.place_order_enabled ≡ true) × (confirmation_present s ≡ true)
  unfolding flag_blocks
  flag_blocks-nil s h =
      let (a, t) = when-append (not s.order_enabled) Block.order_disabled _ h in
      let (b, c) = when-append (not s.place_order_enabled) Block.place_order_disabled _ t in
      (
        not-false _ a,
        not-false _ b,
        not-false _ (when-nil (not (confirmation_present s)) Block.no_confirmation (last-nil _ c)),
      )

  venue_blocks-nil :
      (s : Settings F)
      → venue_blocks s ≡ []
      → (no_host s.base_url_host ≡ false) × (no_key s.api_key s.api_secret ≡ false)
  unfolding venue_blocks
  venue_blocks-nil s h =
      let (a, b) = when-append (no_host s.base_url_host) Block.host_not_allowed _ h in
      (a, when-nil (no_key s.api_key s.api_secret) Block.key_not_configured (last-nil _ b))

  shape_repairs-nil :
      (intent : LiveIntent F)
      → shape_repairs intent ≡ []
      → (not_ready intent.status ≡ false)
        × (is_present intent.symbol ≡ true)
        × (quantity_repair (float_of (or_else intent.quantity (num nought))) ≡ [])
  unfolding shape_repairs
  shape_repairs-nil intent h =
      let (a, t) = when-append (not_ready intent.status) Repair.not_created _ h in
      let (b, c) = when-append (not (is_present intent.symbol)) Repair.symbol_missing _ t in
      (a, not-false _ b, last-nil _ c)

  pub bounded :
      (s : Settings F) (intent : LiveIntent F)
      → flag_blocks s ≡ []
      → venue_blocks s ≡ []
      → shape_repairs intent ≡ []
      → IsBounded s intent
  bounded s intent flags venue shape =
      let (a, b, c) = flag_blocks-nil s flags in
      let (d, e) = venue_blocks-nil s venue in
      let (g, h, q) = shape_repairs-nil intent shape in
      record {
        enabled = a;
        place_enabled = b;
        confirmed = c;
        host = d;
        key = e;
        created = g;
        symbol = h;
        quantity = q;
      }

  -- A close is approved only where the live boundary is switched on, confirmed, on the allowed host
  -- and with a key, and where the intent is a well-formed reduceOnly order.
  pub evaluate_live_close_guard-approved :
      (s : Settings F) (intent : LiveIntent F)
      → (evaluate_live_close_guard s intent).approved ≡ true
      → IsBounded s intent × (intent.reduce_only ≡ true)
  unfolding evaluate_live_close_guard
  evaluate_live_close_guard-approved s intent h =
      let (blocks, shape) =
        verdict_of-approved
          (concat
            (flag_blocks s ∷ venue_blocks s ∷ when (not intent.reduce_only) not_reduce_only ∷ []))
          (shape_repairs intent) h in
      let (flags, t) = append-nil (flag_blocks s) _ blocks in
      let (venue, r) = append-nil (venue_blocks s) _ t in
      (
        bounded s intent flags venue shape,
        not-false _ (when-nil (not intent.reduce_only) not_reduce_only (last-nil _ r)),
      )

  pub loss_block-nil :
      (limit : F) (breached : Bool) → loss_block limit breached ≡ [] → breached ≡ false
  unfolding loss_block
  loss_block-nil limit false h = refl
  loss_block-nil limit true h = ground arith
