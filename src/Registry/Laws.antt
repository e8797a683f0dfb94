-- ===== src/Registry/Laws.antt =====
-- What `active_strategies` and `by_id` return.
use quant_api_gateway.Prelude.{
  String, ◌≡◌, refl, sym, ap, ◌∙◌, ◌≢◌, ◌↔◌, ◌⊎◌, inl, inr, Bool, true, false, none, some, List, [],
  ◌∷◌, arith, str_eq, eq_iff, Bool-cases, ok, err,
}
use quant_api_gateway.Registry.{
  StrategyConfig, StrategyRegistry, active_strategies, active_of, by_id, find_id, keep,
  get_registry, set_registry, clear_registry, Global, not_loaded,
}

-- Membership of a list, as positions that the proofs can take apart.
abbrev pub Has : StrategyConfig → List StrategyConfig → Type 0
Has x [] = ⊥
Has x (y ∷ ys) = (x ≡ y) ⊎ Has x ys

-- No id stands twice.
abbrev pub Fresh : String → List StrategyConfig → Type 0
Fresh i [] = Unit
Fresh i (y ∷ ys) = (i ≢ y.id) × Fresh i ys

abbrev pub DistinctIds : List StrategyConfig → Type 0
DistinctIds [] = Unit
DistinctIds (x ∷ xs) = Fresh x.id xs × DistinctIds xs

Has-of_find :
    (i : String) (c : StrategyConfig) (cs : List StrategyConfig)
    → find_id i cs ≡ some c
    → Has c cs × (c.id ≡ i)
unfolding find_id
Has-of_find i c [] h = cc
Has-of_find i c (x ∷ cs) h = elim (Bool-cases (str_eq x.id i)) [
  | inl e ↦ (inl (ground arith), ground (arith, eq_iff x.id i))
  | inr e ↦ let (m, same) = Has-of_find i c cs (ground arith) in (inr m, same)
]

ne_of_Fresh :
    (i : String) (c : StrategyConfig) (cs : List StrategyConfig) → Fresh i cs → Has c cs → i ≢ c.id
ne_of_Fresh i c [] f h = absurd h
ne_of_Fresh i c (x ∷ cs) f (inl e) = rw e f.0
ne_of_Fresh i c (x ∷ cs) f (inr h) = ne_of_Fresh i c cs f.1 h

find-of_Has :
    (i : String) (c : StrategyConfig) (cs : List StrategyConfig)
    → DistinctIds cs
    → Has c cs
    → c.id ≡ i
    → find_id i cs ≡ some c
unfolding find_id
find-of_Has i c [] d h same = absurd h
find-of_Has i c (x ∷ cs) d (inl e) same =
    ground (arith, eq_iff x.id i, ap (λ (k : StrategyConfig). k.id) e)
find-of_Has i c (x ∷ cs) d (inr h) same =
    ground (arith, eq_iff x.id i, find-of_Has i c cs d.1 h same, ne_of_Fresh x.id c cs d.0 h)

-- Where no id is registered twice, `by_id` returns exactly the registered strategy with the id.
pub by_id_iff :
    (registry : StrategyRegistry) (i : String) (c : StrategyConfig)
    → DistinctIds registry.strategies
    → (by_id registry i ≡ some c) ↔ (Has c registry.strategies × (c.id ≡ i))
unfolding by_id
by_id_iff registry i c d =
    (Has-of_find i c registry.strategies, λ (h, same). find-of_Has i c registry.strategies d h same)

Has-of_keep :
    (b : Bool) (c x : StrategyConfig) (rest : List StrategyConfig)
    → Has c (keep b x rest)
    → ((c ≡ x) × (b ≡ true)) ⊎ Has c rest
Has-of_keep true c x rest (inl e) = inl (e, refl)
Has-of_keep true c x rest (inr h) = inr h
Has-of_keep false c x rest h = inr h

Has-keep_rest :
    (b : Bool) (c x : StrategyConfig) (rest : List StrategyConfig)
    → Has c rest
    → Has c (keep b x rest)
Has-keep_rest true c x rest h = inr h
Has-keep_rest false c x rest h = h

Has-keep_head :
    (b : Bool) (c x : StrategyConfig) (rest : List StrategyConfig)
    → c ≡ x
    → b ≡ true
    → Has c (keep b x rest)
Has-keep_head true c x rest e h = inl e
Has-keep_head false c x rest e h = cc

Has-of_active :
    (c : StrategyConfig) (cs : List StrategyConfig)
    → Has c (active_of cs)
    → Has c cs × (c.active ≡ true)
unfolding active_of
Has-of_active c [] h = absurd h
Has-of_active c (x ∷ cs) h = elim (Has-of_keep x.active c x (active_of cs) h) [
  | inl (e, a) ↦ (inl e, ap (λ (k : StrategyConfig). k.active) e ∙ a)
  | inr later ↦ let (m, a) = Has-of_active c cs later in (inr m, a)
]

active-of_Has :
    (c : StrategyConfig) (cs : List StrategyConfig)
    → Has c cs
    → c.active ≡ true
    → Has c (active_of cs)
unfolding active_of
active-of_Has c [] h a = absurd h
active-of_Has c (x ∷ cs) (inl e) a =
    Has-keep_head x.active c x (active_of cs) e (sym (ap (λ (k : StrategyConfig). k.active) e) ∙ a)
active-of_Has c (x ∷ cs) (inr h) a =
    Has-keep_rest x.active c x (active_of cs) (active-of_Has c cs h a)

-- `active_strategies` holds exactly the registered strategies that are active.
pub active_strategies_iff :
    (registry : StrategyRegistry) (c : StrategyConfig)
    → Has c (active_strategies registry) ↔ (Has c registry.strategies × (c.active ≡ true))
unfolding active_strategies
active_strategies_iff registry c =
    (Has-of_active c registry.strategies, λ (h, a). active-of_Has c registry.strategies h a)

Fresh-keep :
    (b : Bool) (i : String) (x : StrategyConfig) (rest : List StrategyConfig)
    → i ≢ x.id
    → Fresh i rest
    → Fresh i (keep b x rest)
Fresh-keep true i x rest n f = (n, f)
Fresh-keep false i x rest n f = f

Fresh-active_of : (i : String) (cs : List StrategyConfig) → Fresh i cs → Fresh i (active_of cs)
unfolding active_of
Fresh-active_of i [] f = tt
Fresh-active_of i (x ∷ cs) f = Fresh-keep x.active i x (active_of cs) f.0 (Fresh-active_of i cs f.1)

DistinctIds-keep :
    (b : Bool) (x : StrategyConfig) (rest : List StrategyConfig)
    → Fresh x.id rest
    → DistinctIds rest
    → DistinctIds (keep b x rest)
DistinctIds-keep true x rest f d = (f, d)
DistinctIds-keep false x rest f d = d

DistinctIds-active_of : (cs : List StrategyConfig) → DistinctIds cs → DistinctIds (active_of cs)
unfolding active_of
DistinctIds-active_of [] d = tt
DistinctIds-active_of (x ∷ cs) d =
    DistinctIds-keep x.active x (active_of cs) (Fresh-active_of x.id cs d.0)
      (DistinctIds-active_of cs d.1)

pub DistinctIds-active_strategies :
    (registry : StrategyRegistry)
    → DistinctIds registry.strategies
    → DistinctIds (active_strategies registry)
unfolding active_strategies
DistinctIds-active_strategies registry d = DistinctIds-active_of registry.strategies d

-- Whatever was loaded before, `get_registry` returns the registry that was set last, and raises
-- `StrategyRegistryLoadError` once it was cleared; neither changes the registry.
get_registry-after :
    (registry : StrategyRegistry) (g : Global)
    → (get_registry (set_registry registry g).1 ≡ (ok registry, some registry))
      × (get_registry (clear_registry g).1 ≡ (err not_loaded, none))
unfolding get_registry set_registry clear_registry
get_registry-after registry g = (refl, refl)
