-- ===== src/Settings/Laws.antt =====
-- What the settings are once `get_settings` has answered, whatever the environment becomes.
use quant_api_gateway.Prelude.{Option, none, some, List, [], ◌∷◌, ◌≡◌, refl, ok}
use quant_api_gateway.Settings.{
  Conversions, Environment, fields, Settings, read_settings, held, get_settings, cache_clear,
}
use quant_api_gateway.Settings.Valid.{IsValid, read_settings-IsValid}

-- What happens to the cache of `get_settings`: calls, each in an environment of its own, and
-- `cache_clear`.
pub data Event : Type 0 where
  called : Environment → Event
  cleared : Event

module _ (C : Conversions) where
  abbrev pub after : List Event → Option (Settings C) → Option (Settings C)
  after [] cache = cache
  after (called env ∷ events) cache = after events (get_settings C env cache).1
  after (cleared ∷ events) cache = after events (cache_clear C cache)

  module _ (P : Environment → Type 0) where
    abbrev pub EachCalled : List Event → Type 0
    EachCalled [] = Unit
    EachCalled (called env ∷ events) = P env × EachCalled events
    EachCalled (cleared ∷ events) = EachCalled events

    -- The settings are those of one of the environments.
    abbrev pub ReadIn : Settings C → Type 0
    ReadIn settings = (env : Environment) × P env × (read_settings C (fields C) env ≡ some settings)

    abbrev Holds : Option (Settings C) → Type 0
    Holds none = Unit
    Holds (some settings) = ReadIn settings

    held-Holds :
        (env : Environment) (o : Option (Settings C))
        → P env
        → read_settings C (fields C) env ≡ o
        → Holds (held C o none).1
    held-Holds env none p e = tt
    held-Holds env (some settings) p e = (env, p, e)

    get_settings-Holds :
        (env : Environment) (cache : Option (Settings C))
        → P env
        → Holds cache
        → Holds (get_settings C env cache).1
    unfolding get_settings
    get_settings-Holds env none p h = held-Holds env (read_settings C (fields C) env) p refl
    get_settings-Holds env (some settings) p h = h

    after-Holds :
        (events : List Event) (cache : Option (Settings C))
        → EachCalled events
        → Holds cache
        → Holds (after events cache)
    unfolding cache_clear
    after-Holds [] cache each h = h
    after-Holds (called env ∷ events) cache (p, each) h =
        after-Holds events (get_settings C env cache).1 each (get_settings-Holds env cache p h)
    after-Holds (cleared ∷ events) cache each h = after-Holds events none each tt

    held-keeps :
        (o : Option (Settings C)) (settings : Settings C)
        → (held C o none).0 ≡ ok settings
        → (held C o none).1 ≡ some settings
    held-keeps none settings h = cc
    held-keeps (some t) settings h = cc

    answered :
        (env : Environment) (cache : Option (Settings C)) (settings : Settings C)
        → (get_settings C env cache).0 ≡ ok settings
        → (get_settings C env cache).1 ≡ some settings
    unfolding get_settings
    answered env none settings h = held-keeps (read_settings C (fields C) env) settings h
    answered env (some t) settings h = cc

    -- Whatever calls and `cache_clear`s came before: what `get_settings` answers has a value for each
    -- declared field, of its type and within its bound, it was read in one of the environments of the
    -- calls, and every later call, in whatever environment, answers the same until the cache is cleared.
    pub get_settings-IsValid :
        (events : List Event) (env : Environment) (settings : Settings C)
        → EachCalled events
        → P env
        → (get_settings C env (after events none)).0 ≡ ok settings
        → IsValid C (fields C) settings
          × ReadIn settings
          × ((later : Environment)
              → get_settings C later (get_settings C env (after events none)).1
                ≡ (ok settings, some settings))
    unfolding get_settings
    get_settings-IsValid events env settings each p h =
        let kept = answered env (after events none) settings h in
        let holds =
          get_settings-Holds env (after events none) p (after-Holds events none each tt) in
        let (e, q, read) : ReadIn settings = rw kept at holds in
        (read_settings-IsValid C (fields C) e settings read, (e, q, read), λ later. rw kept refl)
