-- ===== src/Effects/Laws.antt =====
-- What an answer says of the calls before it: through a bind, and through an `except` clause that
-- raises.
use quant_api_gateway.Prelude.{
  ◌≡◌, refl, ◌≢◌, Bool, true, false, not, Option, none, some, if◌then◌else◌, Result, ok, err,
}
use quant_api_gateway.Effects.{M, Exception, raise, handle, catch, continue, ◌>>=◌}

module _ {W A : Type 0} where
  -- `except` of the exceptions that `taken` holds of, which raises `failure` in their place.
  abbrev pub instead : (Exception → Bool) → Exception → Exception → Option (M W A)
  instead taken failure e = if taken e then some (raise failure) else none

  raised_never :
      (b : Bool) (e failure : Exception) (w : W) (a : A)
      → (handle (err e) (λ e. if b then some (raise failure) else none) w).0 ≢ ok a
  raised_never true e failure w a h = cc
  raised_never false e failure w a h = cc

  pub handle-instead :
      (taken : Exception → Bool) (failure : Exception) (x : Result Exception A × W) (a : A)
      → (handle x.0 (instead taken failure) x.1).0 ≡ ok a
      → (x.0 ≡ ok a) × (handle x.0 (instead taken failure) x.1 ≡ x)
  handle-instead taken failure (ok b, w) a h = (h, refl)
  handle-instead taken failure (err e, w) a h = absurd (raised_never (taken e) e failure w a h)

  -- `if not b: raise e`, then `m`.
  pub guard-ok :
      (b : Bool) (e : Exception) (m : M W A) (w : W) (a : A)
      → ((if not b then raise e else m) w).0 ≡ ok a
      → (b ≡ true) × ((if not b then raise e else m) w ≡ m w)
  guard-ok true e m w a h = (refl, refl)
  guard-ok false e m w a h = cc

module _ {W A B : Type 0} where
  pub continue-ok :
      (x : Result Exception A × W) (f : A → M W B) (b : B)
      → (continue x.0 f x.1).0 ≡ ok b
      → (a : A) × (x.0 ≡ ok a) × (continue x.0 f x.1 ≡ f a x.1)
  continue-ok (ok a, w) f b h = (a, refl, refl)
  continue-ok (err e, w) f b h = cc

  pub continue-both :
      (x : Result Exception A × W) (f : A → M W B) (b : B) (t : W)
      → continue x.0 f x.1 ≡ (ok b, t)
      → (a : A) × (x ≡ (ok a, x.1)) × (f a x.1 ≡ (ok b, t))
  continue-both (ok a, w) f b t h = (a, refl, h)
  continue-both (err e, w) f b t h = cc

-- What holds of the world before a call holds of it after, whatever the call answers.
module _ {W : Type 0} (P : W → Type 0) where
  abbrev pub Keeps : {A : Type 0} → M W A → Type 0
  Keeps m = (w : W) → P w → P (m w).1

  pub raise-Keeps : (A : Type 0) (e : Exception) → Keeps {A = A} (raise e)
  raise-Keeps A e w p = p

  continue-Keeps :
      {A B : Type 0} (x : Result Exception A × W) (f : A → M W B)
      → P x.1
      → ((a : A) → Keeps (f a))
      → P (continue x.0 f x.1).1
  continue-Keeps (ok a, w) f p k = k a w p
  continue-Keeps (err e, w) f p k = p

  pub then-Keeps :
      {A B : Type 0} (m : M W A) (f : A → M W B)
      → Keeps m
      → ((a : A) → Keeps (f a))
      → Keeps (m >>= f)
  then-Keeps m f h k w p = continue-Keeps (m w) f (h w p) k

  abbrev HandlerKeeps : {A : Type 0} → Option (M W A) → Type 0
  HandlerKeeps none = Unit
  HandlerKeeps (some k) = Keeps k

  handled-Keeps :
      {A : Type 0} (e : Exception) (h : Exception → Option (M W A)) (o : Option (M W A)) (w : W)
      → h e ≡ o
      → HandlerKeeps o
      → P w
      → P (handle (err e) h w).1
  handled-Keeps e h none w same k p = rw (same, handle) p
  handled-Keeps e h (some k) w same keeps p = rw (same, handle) (keeps w p)

  handle-Keeps :
      {A : Type 0} (x : Result Exception A × W) (h : Exception → Option (M W A))
      → P x.1
      → ((e : Exception) → HandlerKeeps (h e))
      → P (handle x.0 h x.1).1
  handle-Keeps (ok a, w) h p k = p
  handle-Keeps (err e, w) h p k = handled-Keeps e h (h e) w refl (k e) p

  pub catch-Keeps :
      {A : Type 0} (m : M W A) (h : Exception → Option (M W A))
      → Keeps m
      → ((e : Exception) → HandlerKeeps (h e))
      → Keeps (catch m h)
  catch-Keeps m h k k' w p = handle-Keeps (m w) h (k w p) k'

  pub if-HandlerKeeps :
      {A : Type 0} (b : Bool) (k : M W A) → Keeps k → HandlerKeeps (if b then some k else none)
  if-HandlerKeeps true k h = h
  if-HandlerKeeps false k h = tt
