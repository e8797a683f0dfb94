-- ===== src/Api/Key/Required.antt =====
-- api/v1/dependencies.py on the settings of src/config.py: that a key is required.
use quant_api_gateway.Prelude.{
  String, ◌≡◌, ◌≢◌, refl, inl, inr, none, some, List, [], ◌∷◌, Bool-cases, str_eq, eq_iff, arith,
  ok,
}
use quant_api_gateway.Api.Key.{CompareDigest, is_ascii, verify_api_key}
use quant_api_gateway.Settings.{Conversions, Environment, Settings, text, get_settings, attribute}
use quant_api_gateway.Settings.Valid.{internal_api_key-nonempty}
use quant_api_gateway.Settings.Laws.{
  Event, called, cleared, EachCalled, after, get_settings-IsValid,
}

module _ {W : Type 0} (secrets : CompareDigest) where
  verify_api_key-none :
      (expected : String) (w : W)
      → expected ≢ ""
      → (verify_api_key secrets expected none w).0 ≢ ok tt
  unfolding verify_api_key
  verify_api_key-none expected w given = elim (Bool-cases (is_ascii expected)) [
    | inr odd ↦ rw (secrets.refuses_expected "" expected odd) (λ h. cc)
    | inl ascii ↦
        rw (secrets.compares "" expected refl ascii) (elim (Bool-cases (str_eq "" expected)) [
          | inl e ↦ absurd (given (ground (arith, eq_iff "" expected)))
          | inr e ↦ rw e (λ h. cc)
        ])
  ]

  module _ (C : Conversions) where
    -- Whatever environments `get_settings` was called in: with the settings that it answers, a request
    -- without the header is not let through by the guard of the ingestion and admin endpoints, since
    -- the key that is expected is never the empty text that stands in for a missing one.
    pub verify_api_key-required :
        (events : List Event) (env : Environment) (settings : Settings C) (w : W)
        → (get_settings C env (after C events none)).0 ≡ ok settings
        → (expected : String) × (attribute C "internal_api_key" settings ≡ some (text expected))
          × (expected ≢ "")
          × ((verify_api_key secrets expected none w).0 ≢ ok tt)
    verify_api_key-required events env settings w h =
        let (valid, _, _) =
          get_settings-IsValid C (λ e. Unit) events env settings (all_called events) tt h in
        let (expected, found, given) = internal_api_key-nonempty C settings valid in
        (expected, found, given, verify_api_key-none expected w given)
      where
        all_called : (events : List Event) → EachCalled C (λ e. Unit) events
        all_called [] = tt
        all_called (called e ∷ events) = (tt, all_called events)
        all_called (cleared ∷ events) = all_called events
