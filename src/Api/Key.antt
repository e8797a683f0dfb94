-- ===== src/Api/Key.antt =====
-- api/v1/dependencies.py: the API key in front of the ingestion and admin endpoints.
pub mod Required
use quant_api_gateway.Prelude.{
  String, ◌≡◌, refl, ◌↔◌, ◌⊎◌, inl, inr, Bool, true, false, ◌&&◌, Option, none, some, str_eq,
  eq_iff, ltb, if◌then◌else◌, Result, ok, err,
}
use Prim.Native.Char.{code}
use quant_api_gateway.Effects.{M, Exception, http, other, pure, raise, lift, ◌>>=◌, ◌>>◌}
use quant_api_gateway.Http.{plain}

abbrev pub is_ascii : String → Bool
is_ascii String.[] = true
is_ascii (String.◌∷◌ c s) = ltb (code c) 128 && is_ascii s

-- `secrets.compare_digest`, of which Python documents that it takes two texts only of ASCII
-- characters (or raises a `TypeError`), and says whether they are equal.
pub record CompareDigest : Type 0 where
  pub compare_digest : String → String → Result Exception Bool
  pub compares :
      (a b : String) → is_ascii a ≡ true → is_ascii b ≡ true → compare_digest a b ≡ ok (str_eq a b)
  pub refuses : (a b : String) → is_ascii a ≡ false → compare_digest a b ≡ err other
  pub refuses_expected : (a b : String) → is_ascii b ≡ false → compare_digest a b ≡ err other

-- `key or ""`
abbrev pub key_or_empty : Option String → String
key_or_empty none = ""
key_or_empty (some key) = key

abbrev pub forbidden : Exception
forbidden = http (record { status_code = 403; detail = plain "Invalid or missing API key" })

module _ {W : Type 0} (secrets : CompareDigest) where
  abbrev when_equal : Bool → M W (Unit {0})
  when_equal equal = if equal then pure tt else raise forbidden

  pub verify_api_key : String → Option String → M W (Unit {0})
  verify_api_key expected key =
      lift (secrets.compare_digest (key_or_empty key) expected) >>= when_equal

  -- A route of a router with `dependencies=[Depends(verify_api_key)]`.
  abbrev pub guarded : {A : Type 0} → String → Option String → M W A → M W A
  guarded expected key handler = verify_api_key expected key >> handler

  -- What a request gets whose key equals the expected one or not.
  abbrev Decided : Bool → W → Result Exception (Unit {0}) × W → Type 0
  Decided equal w x =
      ((x.0 ≡ ok tt) ↔ (equal ≡ true)) × ((x ≡ (ok tt, w)) ⊎ (x ≡ (err forbidden, w)))

  when_equal-Decided : (equal : Bool) (w : W) → Decided equal w (when_equal equal w)
  when_equal-Decided true w = ((λ h. refl, λ h. refl), inl refl)
  when_equal-Decided false w = ((λ h. cc, λ h. cc), inr refl)

  -- With an expected key of ASCII characters, a request whose key is of ASCII characters too passes
  -- exactly if its key, or the empty text for a missing one, is the expected key; it is otherwise
  -- refused with status 403, and either way the world stays as it is.
  pub verify_api_key_iff :
      (expected : String) (key : Option String) (w : W)
      → is_ascii expected ≡ true
      → is_ascii (key_or_empty key) ≡ true
      → let x = verify_api_key expected key w in
        ((x.0 ≡ ok tt) ↔ (key_or_empty key ≡ expected))
        × ((x ≡ (ok tt, w)) ⊎ (x ≡ (err forbidden, w)))
  unfolding verify_api_key
  verify_api_key_iff expected key w ascii presented =
      let equal = str_eq (key_or_empty key) expected in
      let ((opened, open_), ended) = when_equal-Decided equal w in
      let (same, same') = eq_iff (key_or_empty key) expected in
      rw (secrets.compares (key_or_empty key) expected presented ascii)
        ((λ h. same (opened h), λ e. open_ (same' e)), ended)

  -- A key with a character outside ASCII is not answered with 403: the comparison raises.
  verify_api_key-raises :
      (expected key : String) (w : W)
      → is_ascii key ≡ false
      → verify_api_key expected (some key) w ≡ (err other, w)
  unfolding verify_api_key
  verify_api_key-raises expected key w odd = rw (secrets.refuses key expected odd) refl
