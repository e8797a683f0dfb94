-- ===== src/Catalog/Laws.antt =====
-- The catalog is always answered.
use quant_api_gateway.Prelude.{◌≡◌, refl, ◌⊎◌, inl, inr, List, [], ◌∷◌, Result, ok, err}
use quant_api_gateway.Effects.{M, Exception, ◌>>=◌}
use quant_api_gateway.Catalog.{
  EngineEntry, Row, entries_of, static_catalog, get_catalog, after_read,
}

-- The table was read, it is not empty, and its rows are these entries.
abbrev pub Fits : Result Exception (List Row) → List EngineEntry → Type 0
Fits read entries =
    (row : Row) × (rows : List Row) × (read ≡ ok (row ∷ rows))
    × (entries_of (row ∷ rows) ≡ ok entries)

module _ (W : Type 0) (get_pool : M W (Unit {0})) (fetch : M W (List Row)) where
  abbrev Answers : Result Exception (List Row) × W → Type 0
  Answers x =
      (entries : List EngineEntry) × ((after_read W get_pool fetch x).0 ≡ ok entries)
      × (Fits x.0 entries ⊎ ((entries ≡ static_catalog) × ((e : List EngineEntry) → ¬ Fits x.0 e)))

  rows-Answers :
      (row : Row) (rows : List Row) (w : W) (entries : Result Exception (List EngineEntry))
      → entries_of (row ∷ rows) ≡ entries
      → Answers (ok (row ∷ rows), w)
  rows-Answers row rows w (ok entries) e = (entries, rw e refl, inl (row, rows, refl, e))
  rows-Answers row rows w (err x) e =
      (static_catalog, rw e refl, inr (refl, λ es (r, rs, same, listed). cc))

  read-Answers : (x : Result Exception (List Row) × W) → Answers x
  read-Answers (err x, w) = (static_catalog, refl, inr (refl, λ es (r, rs, same, _). cc))
  read-Answers (ok [], w) = (static_catalog, refl, inr (refl, λ es (r, rs, same, _). cc))
  read-Answers (ok (row ∷ rows), w) = rows-Answers row rows w (entries_of (row ∷ rows)) refl

  -- The catalog is answered whatever fails, a row that is no entry included: with the entries of the
  -- table where they can be read and there are any, and with the list in the code otherwise.
  pub get_catalog-answers :
      (w : W)
      → let read = ((get_pool >>= λ _. fetch) w).0 in
        (entries : List EngineEntry) × ((get_catalog W get_pool fetch w).0 ≡ ok entries)
        × (Fits read entries
            ⊎ ((entries ≡ static_catalog) × ((e : List EngineEntry) → ¬ Fits read e)))
  unfolding get_catalog
  get_catalog-answers w = read-Answers ((get_pool >>= λ _. fetch) w)
