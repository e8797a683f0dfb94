-- ===== src/Cache/Ends.antt =====
-- How `invalidate_pattern` of services/cache.py ends, and what it leaves.
use quant_api_gateway.Prelude.{
  ℕ, zero, suc, ◌+◌, ◌<◌, String, ◌≡◌, refl, ◌≢◌, inl, inr, false, Option, none, some, List, arith,
  ◌==◌, if◌then◌else◌, Bool-cases, Option-cases, length, ok, err,
}
use quant_api_gateway.Cache.{Redis}
use quant_api_gateway.Cache.Pattern.{
  Pass, next, after_scan, delete_page, scan_loop, invalidate_pattern, scan_failed,
}
use quant_api_gateway.Cache.Laws.{IsLawful, Spares, Cleared, scan_loop-Spares, scan_loop-Cleared}

-- An iteration of SCAN comes back to cursor 0: a rank of the cursors falls with every page.
pub record ScanEnds (R : Redis) : Type 0 where
  pub rank : ℕ → ℕ
  pub falls :
      (c : ℕ) (p : String) (s : R.State) (c' : ℕ) (ks : List String)
      → (R.scan c p s).0 ≡ some (c', ks)
      → c' ≢ 0
      → rank c' < rank c

module _ (R : Redis) (pattern : String) where
  -- The loop ends, by its test or by an exception that names the pattern.
  abbrev pub Ends : Pass R pattern → Type 0
  Ends none = ⊥
  Ends (some (ok _, t)) = Unit
  Ends (some (err e, t)) = e ≡ scan_failed R pattern

  next-Ends :
      (x : Option (Unit {0}) × R.State) (c d : ℕ) (again : R.State → Pass R pattern)
      → (c ≢ 0 → Ends (again x.1))
      → Ends (next R pattern x c d again)
  next-Ends (none, t) c d again h = refl
  next-Ends (some _, t) c d again h = elim (Bool-cases (c == 0)) [
    | inl e ↦ rw (e, Ends) tt
    | inr e ↦ rw (e, Ends) (h (ground arith))
  ]

  module _ (ends : ScanEnds R) where
    scan_loop-Ends :
        (fuel c d : ℕ) (s : R.State) → ends.rank c < fuel → Ends (scan_loop R pattern fuel c d s)
    unfolding scan_loop
    scan_loop-Ends zero c d s h = absurd (omega arith)
    scan_loop-Ends (suc fuel) c d s h =
        let t = (R.scan c pattern s).1 in
        elim (Option-cases (R.scan c pattern s).0) [
          | inl e ↦ rw (e, after_scan) refl
          | inr ((c', ks), e) ↦
              rw (e, after_scan)
                (next-Ends (delete_page R pattern ks t) c' (d + length ks) _ (λ on.
                  scan_loop-Ends fuel c' (d + length ks) (delete_page R pattern ks t).1
                    (omega (arith, ends.falls c pattern s c' ks e on))))
        ]

module _ (R : Redis) (law : IsLawful R) (ends : ScanEnds R) (pattern : String) where
  open law use {lookup, matches}

  -- What a finished pass over `s` has done: if it returns, the keys of the pattern are gone and the
  -- others are as they were; if it raises, it raises the `CacheError` of the pattern, and the keys
  -- outside the pattern are as they were.
  abbrev pub Flushes : R.State → Pass R pattern → Type 0
  Flushes s none = ⊥
  Flushes s (some (ok _, t)) =
      (j : String) → lookup t j ≡ (if matches pattern j then none else lookup s j)
  Flushes s (some (err e, t)) =
      (e ≡ scan_failed R pattern)
      × ((j : String) → matches pattern j ≡ false → lookup t j ≡ lookup s j)

  flushes :
      (s : R.State) (r : Pass R pattern)
      → Ends R pattern r
      → Spares R law pattern s r
      → Cleared R law pattern r
      → Flushes s r
  flushes s none e k c = e
  flushes s (some (ok _, t)) e k c =
      λ j. elim (Bool-cases (matches pattern j)) [ inl m ↦ rw m (c j m) | inr m ↦ rw m (k j m) ]
  flushes s (some (err _, t)) e k c = (e, k)

  -- On a lawful Redis `invalidate_pattern` ends within one round more than the rank of cursor 0, and
  -- every key that the pattern matches is gone if it returns; no key that the pattern does not match
  -- is touched, whether it returns or raises its `CacheError`.
  pub invalidate_pattern-Flushes :
      (fuel : ℕ) (s : R.State)
      → ends.rank 0 < fuel
      → Flushes s (invalidate_pattern R pattern fuel s)
  unfolding invalidate_pattern
  invalidate_pattern-Flushes fuel s h =
      flushes s (scan_loop R pattern fuel 0 0 s) (scan_loop-Ends R pattern ends fuel 0 0 s h)
        (scan_loop-Spares R law pattern fuel 0 0 s)
        (scan_loop-Cleared R law pattern fuel 0 0 s (λ j there m. law.pending_start j))
