-- ===== src/Cache/Invalidator/Laws.antt =====
-- Which keys the invalidators delete, and which they leave.
use quant_api_gateway.Prelude.{
  ℕ, ◌<◌, String, ◌<>◌, ◌≡◌, refl, sym, ap, ◌∙◌, inl, inr, Bool, true, false, ◌&&◌, Option, none,
  some, [], ◌∷◌, ◌==◌, Option-cases, one_of, Result, ok, err,
}
use Prim.Native.Char.{code}
use text.Mathlib.TextLemmas.{cons-append}
use quant_api_gateway.Cache.{Redis, Exception, invalidate_key, attempt, str_eq, Bool-cases, eq_iff}
use quant_api_gateway.Cache.Pattern.{Pass, invalidate_pattern}
use quant_api_gateway.Cache.Laws.{IsLawful}
use quant_api_gateway.Cache.Ends.{ScanEnds, Flushes, invalidate_pattern-Flushes}
use quant_api_gateway.Cache.Invalidator.{
  overall_performance_key, strategy_performance_key, gateway_cache_pattern, strategy_report_pattern,
  strategy_trades_pattern, strategy_benchmark_pattern, settled, invalidate_strategy_report_bundle,
  flush_all, invalidate_overall_cache, best_effort, invalidate_strategy_cache,
}

-- `j.startswith(p)`.
abbrev pub has_prefix : String → String → Bool
has_prefix String.[] j = true
has_prefix (String.◌∷◌ c p) String.[] = false
has_prefix (String.◌∷◌ c p) (String.◌∷◌ d j) = code c == code d && has_prefix p j

module _ (R : Redis) (law : IsLawful R) where
  open law use {lookup}

  deleted_else :
      (key j : String) (s : R.State)
      → one_of j (key ∷ []) ≡ false
      → ((best_effort (invalidate_key R key) s).0 ≡ ok tt)
        × (lookup (best_effort (invalidate_key R key) s).1 j ≡ lookup s j)
  unfolding invalidate_key
  deleted_else key j s out = elim (Option-cases (R.delete (key ∷ []) s).0) [
    | inl e ↦ rw (e, attempt) (refl, law.delete_others (key ∷ []) j s out)
    | inr (_, e) ↦ rw (e, attempt) (refl, law.delete_others (key ∷ []) j s out)
  ]

  -- On a lawful Redis, available or not, the invalidations of the overall performance and of a
  -- strategy's never raise, and each leaves every key but its own as it was.
  pub invalidate_caches-spare :
      (i j k : String) (s : R.State)
      → one_of j (overall_performance_key ∷ []) ≡ false
      → one_of k (strategy_performance_key i ∷ []) ≡ false
      → (((invalidate_overall_cache R s).0 ≡ ok tt)
          × (lookup (invalidate_overall_cache R s).1 j ≡ lookup s j))
        × (((invalidate_strategy_cache R i s).0 ≡ ok tt)
            × (lookup (invalidate_strategy_cache R i s).1 k ≡ lookup s k))
  unfolding invalidate_overall_cache invalidate_strategy_cache
  invalidate_caches-spare i j k s other_j other_k = (
    deleted_else overall_performance_key j s other_j,
    deleted_else (strategy_performance_key i) k s other_k,
  )

module _ (R : Redis) (law : IsLawful R) (ends : ScanEnds R) where
  open law use {lookup, matches}

  -- The state that a best-effort pass leaves: it is reached, and the other keys are untouched.
  record Settles (pattern : String) (s : R.State) (o : Option R.State) : Type 0 where
    state : R.State
    reached : o ≡ some state
    spares : (j : String) → matches pattern j ≡ false → lookup state j ≡ lookup s j

  settles :
      (pattern : String) (s : R.State) (r : Pass R pattern)
      → Flushes R law ends pattern s r
      → Settles pattern s (settled R r)
  settles pattern s none f = absurd f
  settles pattern s (some (ok _, t)) f = record {
    state = t;
    reached = refl;
    spares = λ j out. f j ∙ rw out refl;
  }
  settles pattern s (some (err _, t)) f = record { state = t; reached = refl; spares = f.1 }

  pattern-Settles :
      (pattern : String) (fuel : ℕ) (s : R.State)
      → ends.rank 0 < fuel
      → Settles pattern s (settled R (invalidate_pattern R pattern fuel s))
  pattern-Settles pattern fuel s h =
      settles pattern s (invalidate_pattern R pattern fuel s)
        (invalidate_pattern-Flushes R law ends pattern fuel s h)

  -- On a lawful Redis, with fuel above the rank of cursor 0, the invalidation of a strategy's report
  -- bundle comes to an end without an exception, and leaves alone a key that none of the strategy's
  -- report, trades and benchmark patterns match.
  pub report_bundle-spares :
      (fuel : ℕ) (i j : String) (s : R.State)
      → ends.rank 0 < fuel
      → matches (strategy_report_pattern i) j ≡ false
      → matches (strategy_trades_pattern i) j ≡ false
      → matches (strategy_benchmark_pattern i) j ≡ false
      → (t : R.State) × (invalidate_strategy_report_bundle R fuel i s ≡ some t)
        × (lookup t j ≡ lookup s j)
  unfolding invalidate_strategy_report_bundle
  report_bundle-spares fuel i j s h no_report no_trades no_benchmark =
      let a = pattern-Settles (strategy_report_pattern i) fuel s h in
      let b = pattern-Settles (strategy_trades_pattern i) fuel a.state h in
      let c = pattern-Settles (strategy_benchmark_pattern i) fuel b.state h in
      (
        c.state,
        rw a.reached (rw b.reached c.reached),
        c.spares j no_benchmark ∙ b.spares j no_trades ∙ a.spares j no_report,
      )

  -- It comes to an end whatever the keys.
  pub report_bundle-ends :
      (fuel : ℕ) (i : String) (s : R.State)
      → ends.rank 0 < fuel
      → (t : R.State) × (invalidate_strategy_report_bundle R fuel i s ≡ some t)
  unfolding invalidate_strategy_report_bundle
  report_bundle-ends fuel i s h =
      let a = pattern-Settles (strategy_report_pattern i) fuel s h in
      let b = pattern-Settles (strategy_trades_pattern i) fuel a.state h in
      let c = pattern-Settles (strategy_benchmark_pattern i) fuel b.state h in
      (c.state, rw a.reached (rw b.reached c.reached))

  cleared :
      (pattern j : String) (s : R.State) (n : ℕ) (t : R.State) (r : Pass R pattern)
      → Flushes R law ends pattern s r
      → r ≡ some (ok n, t)
      → matches pattern j ≡ true
      → lookup t j ≡ none
  cleared pattern j s n t none f e m = absurd f
  cleared pattern j s n t (some (err _, u)) f e m = cc
  cleared pattern j s n t (some (ok _, u)) f e m =
      let same : u ≡ t = cc in ap (λ v. lookup v j) (sym same) ∙ f j ∙ rw m refl

  -- The same invalidation, when its pass over the report keys returns: a key of theirs that neither
  -- of the other two patterns matches is gone.
  pub report_bundle-clears :
      (fuel : ℕ) (i j : String) (s : R.State) (n : ℕ) (t : R.State)
      → ends.rank 0 < fuel
      → invalidate_pattern R (strategy_report_pattern i) fuel s ≡ some (ok n, t)
      → matches (strategy_report_pattern i) j ≡ true
      → matches (strategy_trades_pattern i) j ≡ false
      → matches (strategy_benchmark_pattern i) j ≡ false
      → (u : R.State) × (invalidate_strategy_report_bundle R fuel i s ≡ some u)
        × (lookup u j ≡ none)
  unfolding invalidate_strategy_report_bundle
  report_bundle-clears fuel i j s n t h returned report no_trades no_benchmark =
      let gone =
        cleared (strategy_report_pattern i) j s n t
          (invalidate_pattern R (strategy_report_pattern i) fuel s)
          (invalidate_pattern-Flushes R law ends (strategy_report_pattern i) fuel s h) returned
          report in
      let b = pattern-Settles (strategy_trades_pattern i) fuel t h in
      let c = pattern-Settles (strategy_benchmark_pattern i) fuel b.state h in
      (
        c.state,
        rw (returned, b.reached) c.reached,
        c.spares j no_benchmark ∙ b.spares j no_trades ∙ gone,
      )

  -- The keys under which the endpoints cache performance, snapshots and metrics.
  pub data ResultKey : String → Type 0 where
    overall : ResultKey overall_performance_key
    strategy : (i : String) → ResultKey (strategy_performance_key i)
    snapshot : (date : String) → ResultKey ("portfolio_snapshot:" <> date)
    metrics : (date : String) → ResultKey ("portfolio_metrics:" <> date)

  not_gateway : {k : String} → ResultKey k → has_prefix "gateway:" k ≡ false
  not_gateway overall = refl
  not_gateway (strategy i) = rw (cons-append _ "trategy:" _) refl
  not_gateway (snapshot date) = rw (cons-append _ "ortfolio_snapshot:" _) refl
  not_gateway (metrics date) = rw (cons-append _ "ortfolio_metrics:" _) refl

  pub ResultKey-differs :
      {i : String} (k : String) → ResultKey i → has_prefix "gateway:" k ≡ true → str_eq i k ≡ false
  ResultKey-differs {i} k key gateway = elim (Bool-cases (str_eq i k)) [
    | inl e ↦
        let same : i ≡ k = (eq_iff i k).0 e in
        let no : has_prefix "gateway:" i ≡ false = not_gateway key in
        let yes : has_prefix "gateway:" i ≡ true = ap (has_prefix "gateway:") same ∙ gateway in cc
    | inr e ↦ e
  ]

  -- The glob `gateway:*` matches the keys that begin with `gateway:`.
  abbrev GlobIsPrefix : Type 0
  GlobIsPrefix = (j : String) → matches gateway_cache_pattern j ≡ has_prefix "gateway:" j

  flush_leaves :
      (s : R.State) (r : Pass R gateway_cache_pattern) (k : String)
      → matches gateway_cache_pattern k ≡ false
      → Flushes R law ends gateway_cache_pattern s r
      → (e : Result Exception ℕ) × (t : R.State) × (r ≡ some (e, t)) × (lookup t k ≡ lookup s k)
  flush_leaves s none k out f = absurd f
  flush_leaves s (some (ok n, t)) k out f = (ok n, t, refl, f k ∙ rw out refl)
  flush_leaves s (some (err e, t)) k out f = (err e, t, refl, f.1 k out)

  pub flush_all-Flushes :
      (fuel : ℕ) (s : R.State)
      → ends.rank 0 < fuel
      → Flushes R law ends gateway_cache_pattern s (flush_all R fuel s)
  unfolding flush_all
  flush_all-Flushes fuel s h = invalidate_pattern-Flushes R law ends gateway_cache_pattern fuel s h

  -- On a lawful Redis whose glob `gateway:*` matches the keys with that prefix, and with fuel above
  -- the rank of cursor 0, `flush_all` ends and leaves what is cached under the keys of performance,
  -- snapshots and metrics as it was.
  pub flush_all_misses :
      (fuel : ℕ) (s : R.State) (k : String)
      → GlobIsPrefix
      → ends.rank 0 < fuel
      → ResultKey k
      → (e : Result Exception ℕ) × (t : R.State) × (flush_all R fuel s ≡ some (e, t))
        × (lookup t k ≡ lookup s k)
  unfolding flush_all
  flush_all_misses fuel s k glob h key =
      flush_leaves s (invalidate_pattern R gateway_cache_pattern fuel s) k
        (glob k ∙ not_gateway key)
        (invalidate_pattern-Flushes R law ends gateway_cache_pattern fuel s h)
