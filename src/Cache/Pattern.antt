-- ===== src/Cache/Pattern.antt =====
-- `invalidate_pattern` of services/cache.py: SCAN pages until the cursor is 0, and delete each page.
-- The loop takes fuel; `none` means that it ran out.
use quant_api_gateway.Prelude.{
  ℕ, zero, suc, ◌+◌, String, true, false, Option, none, some, List, [], ◌∷◌, ◌==◌, length, Result,
  ok, err,
}
use quant_api_gateway.Effects.{Exception}
use quant_api_gateway.Cache.{Redis, failed}

module _ (R : Redis) (pattern : String) where
  abbrev pub Pass : Type 0
  Pass = Option (Result Exception ℕ × R.State)

  abbrev pub scan_failed : Exception
  scan_failed = failed "redis SCAN/DELETE failed for pattern {!r}" pattern

  -- `if keys: await redis.delete(*keys)`
  abbrev pub delete_page : List String → R.State → Option (Unit {0}) × R.State
  delete_page [] s = (some tt, s)
  delete_page (k ∷ keys) s = R.delete (k ∷ keys) s

  -- After a page: an exception of the delete ends the loop, and so does cursor 0.
  abbrev pub next : Option (Unit {0}) × R.State → ℕ → ℕ → (R.State → Pass) → Pass
  next (none, s) cursor deleted again = some (err scan_failed, s)
  next (some _, s) cursor deleted again = elim (cursor == 0) [
    | true ↦ some (ok deleted, s)
    | false ↦ again s
  ]

  abbrev pub after_scan : Option (ℕ × List String) × R.State → ℕ → (ℕ → ℕ → R.State → Pass) → Pass
  after_scan (none, s) deleted again = some (err scan_failed, s)
  after_scan (some (cursor, keys), s) deleted again =
      next (delete_page keys s) cursor (deleted + length keys)
        (again cursor (deleted + length keys))

  unfoldable pub scan_loop : ℕ → ℕ → ℕ → R.State → Pass
  scan_loop zero cursor deleted s = none
  scan_loop (suc fuel) cursor deleted s =
      after_scan (R.scan cursor pattern s) deleted (λ c d t. scan_loop fuel c d t)

  unfoldable pub invalidate_pattern : ℕ → R.State → Pass
  unfolding scan_loop
  invalidate_pattern fuel s = scan_loop fuel 0 0 s
