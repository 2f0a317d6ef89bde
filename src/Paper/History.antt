-- ===== src/Paper/History.antt =====
-- The single paper slot over a history of entries and settlements (paper_position_kernel.py).
use crypto_ai_system.Common.{
  ℕ, ◌+◌, String, Bool, Option, none, some, List, [], ◌≡◌, refl, arith, length, true, not, ◌&&◌,
  is_some, if-both,
}
use crypto_ai_system.Float.{Float}
use crypto_ai_system.Trade.{Candle}
use crypto_ai_system.Paper.Model.{
  Execution, Reconciliation, Position, Slot, junk, Outcome, Services, load_open,
}
use crypto_ai_system.Paper.Entry.{
  build_position, opening, open_from_execution, open_position_if_filled,
}
use crypto_ai_system.Paper.Lifecycle.{
  open_count, SlotIsTracked, build_position-IsTracked, settle, settle_open_position-Accounts,
}

none_if {ℓ} : {A : Type ℓ} (o : Option A) (b : Bool) → (b && not (is_some o)) ≡ true → o ≡ none
none_if none b h = refl
none_if (some a) b h = ground arith

-- The slot, the outcomes, and how many entries have opened a position.
pub record Book (F : Type 0) : Type 0 where
  pub slot : Slot F
  pub outcomes : List (Outcome F)
  pub entries : ℕ

module _ {F : Type 0} ⦃f : Float F⦄ where
  abbrev pub started : Book F
  started = record { slot = junk; outcomes = []; entries = 0 }

  abbrev pub entered :
      Services F → Execution F → Reconciliation → Option String → Bool → Book F → Book F
  entered services ex rec cycle order_filled b =
      let r = open_position_if_filled services ex rec cycle order_filled b.slot in
      record b { slot = r.0; entries = b.entries + open_count r.1 }

  abbrev pub resettled :
      Services F → Option (Candle F) → Option F → Bool → String → Option String → Book F → Book F
  resettled services candle last_close manual timeframe regime b =
      let r = settle services candle last_close manual timeframe regime b.slot b.outcomes in
      record b { slot = r.slot; outcomes = r.outcomes }

  -- An entry and a settlement, each at any time.
  pub data Step (b : Book F) : Book F → Type 0 where
    enter :
        (services : Services F) (ex : Execution F) (rec : Reconciliation) (cycle : Option String)
        (order_filled : Bool)
        → Step b (entered services ex rec cycle order_filled b)
    settle_once :
        (services : Services F) (candle : Option (Candle F)) (last_close : Option F) (manual : Bool)
        (timeframe : String) (regime : Option String)
        → Step b (resettled services candle last_close manual timeframe regime b)

  pub data Reach : Book F → Type 0 where
    start : Reach started
    next : {b c : Book F} → Reach b → Step b c → Reach c

  abbrev opened_by : Slot F × Option (Position F) → Book F → Book F
  opened_by r b = record b { slot = r.0; entries = b.entries + open_count r.1 }

  pub record IsSound (b : Book F) : Type 0 where
    pub accounted : b.entries ≡ length b.outcomes + open_count (load_open b.slot)
    pub tracked : SlotIsTracked b.slot

  open_from_execution-IsSound :
      (services : Services F) (ex : Execution F) (rec : Reconciliation) (cycle : Option String)
      (b : Book F) (built : Option (Position F))
      → build_position services ex rec cycle ≡ built
      → load_open b.slot ≡ none
      → IsSound b
      → IsSound (opened_by (open_from_execution services ex rec cycle b.slot) b)
  unfolding open_from_execution
  open_from_execution-IsSound services ex rec cycle b none e free s =
      rw (e, opening) (record { accounted = omega (arith, s.accounted); tracked = s.tracked })
  open_from_execution-IsSound services ex rec cycle b (some p) e free s =
      let tracked = (build_position-IsTracked services ex rec cycle e).1 in
      rw (e, opening)
        (record { accounted = unfold load_open in ground (arith, s.accounted); tracked = tracked })

  open_position_if_filled-IsSound :
      (services : Services F) (ex : Execution F) (rec : Reconciliation) (cycle : Option String)
      (order_filled : Bool) (b : Book F)
      → IsSound b
      → IsSound (entered services ex rec cycle order_filled b)
  unfolding open_position_if_filled
  open_position_if_filled-IsSound services ex rec cycle order_filled b s =
      if-both (λ (r : Slot F × Option (Position F)). IsSound (opened_by r b))
        (order_filled && not (is_some (load_open b.slot))) _ _
        (λ free.
          open_from_execution-IsSound services ex rec cycle b _ refl
            (none_if (load_open b.slot) order_filled free) s)
        (λ held. record { accounted = omega (arith, s.accounted); tracked = s.tracked })

  Step-IsSound : {b c : Book F} → IsSound b → Step b c → IsSound c
  Step-IsSound {b} s (enter services ex rec cycle order_filled) =
      open_position_if_filled-IsSound services ex rec cycle order_filled b s
  Step-IsSound {b} s (settle_once services candle last_close manual timeframe regime) =
      let accounts =
        settle_open_position-Accounts services candle last_close manual timeframe regime b.slot
          b.outcomes in
      record { accounted = omega (arith, s.accounted, accounts); tracked = accounts.2 s.tracked }

  -- In every history, each position that was opened has ended in exactly one outcome, or is the one
  -- that is open now; and the open one is tracked.
  pub Reach-IsSound : {b : Book F} → Reach b → IsSound b
  unfolding load_open
  Reach-IsSound start = record { accounted = refl; tracked = tt }
  Reach-IsSound (next r s) = Step-IsSound (Reach-IsSound r) s
