-- ===== src/Registry.antt =====
-- schemas/registry.py and services/strategy_registry.py: the strategies that the gateway knows, and
-- the module's global that holds them.
pub mod Load
pub mod Validation
pub mod Laws
use quant_api_gateway.Prelude.{
  ℕ, String, Bool, true, false, Option, none, some, List, [], ◌∷◌, str_eq, if◌then◌else◌, ok, err,
}
use quant_api_gateway.Http.{plain}
use quant_api_gateway.Effects.{M, Exception, service, registry_load_error}

-- The weight is in units of 0.0001, its four decimal places; it is not negative.
pub record StrategyConfig : Type 0 where
  pub id : String
  pub name : String
  pub type_name : String
  pub service_url : String
  pub capital_weight : ℕ
  pub active : Bool

pub record StrategyRegistry : Type 0 where
  pub strategies : List StrategyConfig

-- One round of a comprehension with an `if`.
abbrev pub keep {ℓ} : {A : Type ℓ} → Bool → A → List A → List A
keep true x rest = x ∷ rest
keep false x rest = rest

active_of : List StrategyConfig → List StrategyConfig
active_of [] = []
active_of (s ∷ strategies) = keep s.active s (active_of strategies)

unfoldable pub active_strategies : StrategyRegistry → List StrategyConfig
unfolding active_of
active_strategies registry = active_of registry.strategies

find_id : String → List StrategyConfig → Option StrategyConfig
find_id strategy_id [] = none
find_id strategy_id (s ∷ strategies) =
    if str_eq s.id strategy_id then some s else find_id strategy_id strategies

pub by_id : StrategyRegistry → String → Option StrategyConfig
unfolding find_id
by_id registry strategy_id = find_id strategy_id registry.strategies

-- The global `_registry`.
abbrev pub Global : Type 0
Global = Option StrategyRegistry

unfoldable pub set_registry : StrategyRegistry → M Global (Unit {0})
set_registry registry _ = (ok tt, some registry)

abbrev pub not_loaded : Exception
not_loaded = service registry_load_error (plain "strategy registry has not been loaded")

unfoldable pub get_registry : M Global StrategyRegistry
get_registry none = (err not_loaded, none)
get_registry (some registry) = (ok registry, some registry)

unfoldable pub clear_registry : M Global (Unit {0})
clear_registry _ = (ok tt, none)
