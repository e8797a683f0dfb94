-- ===== src/Api/Laws.antt =====
-- What cache-aside answers, and what it leaves behind.
use quant_api_gateway.Prelude.{
  ℕ, String, ◌≡◌, refl, sym, ap, ◌∙◌, ◌↔◌, ◌⊎◌, inl, inr, Option, none, some, eq_refl, Option-cases,
  Result, ok, err,
}
use quant_api_gateway.Effects.{M, Exception, continue}
use quant_api_gateway.Cache.{Redis, Model, attempt, parse_raw, get_cached, set_cached}
use quant_api_gateway.Cache.Laws.{IsLawful}
use quant_api_gateway.Api.{World, remember, or_compute, cache_aside}

module _ (R : Redis) (D : Type 0) {A : Type 0} (key : String) (model : Model A) (ttl : ℕ) where
  -- `set_cached` raises nothing but `CacheError`, so that what is caught is all of it.
  remember-value : (value : A) (w : World R D) → (remember R D key model ttl value w).0 ≡ ok value
  unfolding remember set_cached
  remember-value value (s, d, g) = elim (Option-cases (model.dump value)) [
    | inl e ↦ rw e refl
    | inr (payload, e) ↦ elim (Option-cases (R.setex key ttl payload s).0) [
      | inl f ↦ rw (e, f, attempt) refl
      | inr (_, f) ↦ rw (e, f, attempt) refl
    ]
  ]

  remember-db : (value : A) (w : World R D) → (remember R D key model ttl value w).1.1 ≡ w.1
  unfolding remember set_cached
  remember-db value (s, d, g) = elim (Option-cases (model.dump value)) [
    | inl e ↦ rw e refl
    | inr (payload, e) ↦ elim (Option-cases (R.setex key ttl payload s).0) [
      | inl f ↦ rw (e, f, attempt) refl
      | inr (_, f) ↦ rw (e, f, attempt) refl
    ]
  ]

  -- The world after the cache was asked.
  abbrev pub asked : World R D → World R D
  asked (s, d, g) = ((get_cached R key model s).1, d, g)

  abbrev pub reply : World R D → Result Exception (Option A)
  reply (s, d, g) = (get_cached R key model s).0

  -- A request is served `a`: from the cache, or by the computation after a miss.
  abbrev pub Served : M (World R D) A → World R D → A → Type 0
  Served compute w a =
      (reply w ≡ ok (some a)) ⊎ ((reply w ≡ ok none) × ((compute (asked w)).0 ≡ ok a))

  remembered :
      (x : Result Exception A × World R D) → (continue x.0 (remember R D key model ttl) x.1).0 ≡ x.0
  remembered (ok a, w) = remember-value a w
  remembered (err e, w) = refl

  continue-Served :
      (compute : M (World R D) A) (r : Result Exception (Option A)) (w : World R D) (a : A)
      → ((continue r (or_compute R D key model ttl compute) w).0 ≡ ok a)
        ↔ ((r ≡ ok (some a)) ⊎ ((r ≡ ok none) × ((compute w).0 ≡ ok a)))
  continue-Served compute (err e) w a = (λ h. cc, λ h. elim h [ inl h ↦ cc | inr (h, _) ↦ cc ])
  continue-Served compute (ok (some b)) w a =
      (λ h. inl (cc), λ h. elim h [ inl h ↦ cc | inr (h, _) ↦ cc ])
  continue-Served compute (ok none) w a = (
    λ h. inr (refl, sym (remembered (compute w)) ∙ h),
    λ h. elim h [ inl h ↦ cc | inr (_, h) ↦ remembered (compute w) ∙ h ],
  )

  pub cache_aside-Served :
      (compute : M (World R D) A) (w : World R D) (a : A)
      → ((cache_aside R D key model ttl compute w).0 ≡ ok a) ↔ Served compute w a
  unfolding cache_aside
  cache_aside-Served compute (s, d, g) a =
      continue-Served compute (reply (s, d, g)) (asked (s, d, g)) a

  abbrev stored_world : World R D → String → World R D
  stored_world (s, d, g) payload = ((R.setex key ttl payload s).1, d, g)

  remember-stored :
      (a : A) (payload : String) (w : World R D)
      → model.dump a ≡ some payload
      → (R.setex key ttl payload w.0).0 ≡ some tt
      → (remember R D key model ttl a w).1 ≡ stored_world w payload
  unfolding remember set_cached
  remember-stored a payload (s, d, g) dumped stored = rw (dumped, stored, attempt) refl

  cache_aside-miss :
      (compute : M (World R D) A) (w : World R D) (a : A) (payload : String)
      → reply w ≡ ok none
      → (compute (asked w)).0 ≡ ok a
      → model.dump a ≡ some payload
      → (R.setex key ttl payload (compute (asked w)).1.0).0 ≡ some tt
      → (cache_aside R D key model ttl compute w).1 ≡ stored_world (compute (asked w)).1 payload
  unfolding cache_aside
  cache_aside-miss compute (s, d, g) a payload miss made dumped stored =
      rw (miss, made) (remember-stored a payload (compute (asked (s, d, g))).1 dumped stored)

  setex_reads :
      (law : IsLawful R) (s : R.State) (payload : String)
      → (R.setex key ttl payload s).0 ≡ some tt
      → law.lookup (R.setex key ttl payload s).1 key ≡ some payload
  setex_reads law s payload stored =
      law.setex_writes key ttl payload key s stored ∙ rw (eq_refl key) refl

  pub get_cached-got :
      (s : R.State) (v : Option String)
      → (R.get key s).0 ≡ some v
      → (get_cached R key model s).0 ≡ ok (parse_raw R model v)
  unfolding get_cached
  get_cached-got s v got = rw (got, attempt) refl

  reply-hit :
      (w : World R D) (a : A) (v : Option String) (payload : String)
      → (R.get key w.0).0 ≡ some v
      → v ≡ some payload
      → model.parse payload ≡ some a
      → reply w ≡ ok (some a)
  reply-hit (s, d, g) a v payload got e parsed = get_cached-got s v got ∙ rw (e, parsed) refl

  cache_aside-hit :
      (compute : M (World R D) A) (w : World R D) (a : A) (v : Option String) (payload : String)
      → (R.get key w.0).0 ≡ some v
      → v ≡ some payload
      → model.parse payload ≡ some a
      → cache_aside R D key model ttl compute w ≡ (ok a, asked w)
  unfolding cache_aside
  cache_aside-hit compute (s, d, g) a v payload got e parsed =
      rw (reply-hit (s, d, g) a v payload got e parsed) refl

  -- A value that was computed on a miss and stored is served to the next request from the cache: with
  -- a Redis that does what it documents, a model whose text parses back to the value, a SETEX that
  -- succeeded and a GET that answers, the second request returns the same value whatever it would
  -- compute, and leaves the databases and the registry as the first left them.
  pub cache_aside-again :
      (law : IsLawful R) (compute compute' : M (World R D) A) (w : World R D) (a : A)
      (payload : String) (v : Option String)
      → reply w ≡ ok none
      → (compute (asked w)).0 ≡ ok a
      → model.dump a ≡ some payload
      → model.parse payload ≡ some a
      → (R.setex key ttl payload (compute (asked w)).1.0).0 ≡ some tt
      → (R.get key (cache_aside R D key model ttl compute w).1.0).0 ≡ some v
      → cache_aside R D key model ttl compute' (cache_aside R D key model ttl compute w).1
        ≡ (ok a, asked (cache_aside R D key model ttl compute w).1)
  cache_aside-again law compute compute' w a payload v miss made dumped parsed stored got =
      let w' = (cache_aside R D key model ttl compute w).1 in
      let state : w' ≡ stored_world (compute (asked w)).1 payload =
        cache_aside-miss compute w a payload miss made dumped stored in
      let kept : law.lookup w'.0 key ≡ some payload =
        ap (λ x. law.lookup x.0 key) state
        ∙ setex_reads law (compute (asked w)).1.0 payload stored in
      cache_aside-hit compute' w' a v payload got (law.get_value key w'.0 v got ∙ kept) parsed
