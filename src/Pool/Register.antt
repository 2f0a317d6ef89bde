-- ===== src/Pool/Register.antt =====
-- The file of the pool and the registry of its decisions (the persistence of
-- active_strategy_pool.py).
use crypto_ai_system.Common.{String, Bool, true, false, Option, none, some, if◌then◌else◌}
use crypto_ai_system.Float.{Float}
use crypto_ai_system.Registry.{File, append_registry_record}
use crypto_ai_system.Pool.{Spec, Pool, Decision, Terms, empty_pool, add_champion}
use crypto_ai_system.Pool

pub record AuditRow (F : Type 0) : Type 0 where
  pub decision : Decision F
  pub strategy_id : String
  pub strategy_rule_hash : String

-- `pool_file` is none where the file is missing, no JSON, or no pool.
pub record Store (F : Type 0) : Type 0 where
  pub pool_file : Option (Pool F)
  pub registry : File (AuditRow F)

module _ {F : Type 0} where
  -- `load_pool`
  unfoldable pub load_pool : Option (Pool F) → Pool F
  load_pool none = empty_pool "paper"
  load_pool (some pool) = pool

  -- `decision["action"] in (ACTION_ADDED, ACTION_REPLACED)`
  unfoldable pub is_admitted : Decision F → Bool
  is_admitted (Pool.added id occupied cap) = true
  is_admitted (Pool.replaced id displaced score champion_score cap audit) = true
  is_admitted _ = false

  abbrev pub audit_row : Spec → Decision F → AuditRow F
  audit_row spec d = record {
    decision = d;
    strategy_id = spec.strategy_id;
    strategy_rule_hash = spec.strategy_rule_hash;
  }

  -- `save_pool`, where the decision has changed the pool.
  abbrev pub saved : Store F → Pool F × Decision F → Store F
  saved store (pool, d) = if is_admitted d then record store { pool_file = some pool } else store

  -- The end of the registration, with the registry that the append of the decision gives; `none` is
  -- its exception, which comes after the save.
  abbrev pub recorded :
      Decision F → Store F → Option (File (AuditRow F)) → Store F × Option (Decision F)
  recorded d store none = (store, none)
  recorded d store (some registry) = (record store { registry = registry }, some d)

  -- The save and the append, with what `add_champion` gives.
  abbrev pub registered :
      Spec → Store F → Option (Pool F × Decision F) → Store F × Option (Decision F)
  registered spec store none = (store, none)
  registered spec store (some r) =
      recorded r.1 (saved store r) (append_registry_record store.registry true (audit_row spec r.1))

-- `none` of the second result is an exception: of `min` on no occupants, or of the append.
unfoldable pub register_champion :
    {F : Type 0} ⦃f : Float F⦄ → Terms F → Store F → Spec → Option F → Store F × Option (Decision F)
unfolding load_pool is_admitted
register_champion terms store spec champion_score =
    registered spec store (add_champion terms (load_pool store.pool_file) spec champion_score)
