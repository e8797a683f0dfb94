-- ===== src/StrategyReports/Ordered.antt =====
-- What `ORDER BY time DESC` promises of its rows, and when it leaves one order only.
use quant_api_gateway.Prelude.{◌≤◌, ◌<◌, ◌≡◌, refl, subst, ◌⊎◌, inl, inr, List, [], ◌∷◌, arith}
use quant_api_gateway.Numbers.{Numbers}
use quant_api_gateway.StrategyReports.Rows.{Trade}

module _ (N : Numbers) where
  abbrev pub AllBefore : Trade N → List (Trade N) → Type 0
  AllBefore t [] = Unit
  AllBefore t (u ∷ us) = (u.time ≤ t.time) × AllBefore t us

  -- From the latest trade to the first.
  abbrev pub Descending : List (Trade N) → Type 0
  Descending [] = Unit
  Descending (t ∷ ts) = AllBefore t ts × Descending ts

  abbrev pub AllEarlier : Trade N → List (Trade N) → Type 0
  AllEarlier t [] = Unit
  AllEarlier t (u ∷ us) = (u.time < t.time) × AllEarlier t us

  -- From the latest trade to the first, and no two of one time.
  abbrev pub Strict : List (Trade N) → Type 0
  Strict [] = Unit
  Strict (t ∷ ts) = AllEarlier t ts × Strict ts

  -- `zs` is `xs` with `x` put in somewhere.
  abbrev pub Into : Trade N → List (Trade N) → List (Trade N) → Type 0
  Into x xs [] = ⊥
  Into x xs (z ∷ zs) =
      ((z ≡ x) × (zs ≡ xs)) ⊎ ((rest : List (Trade N)) × (xs ≡ z ∷ rest) × Into x rest zs)

  -- The same rows, in some order.
  abbrev pub Rearranged : List (Trade N) → List (Trade N) → Type 0
  Rearranged [] zs = zs ≡ []
  Rearranged (x ∷ xs) zs = (rest : List (Trade N)) × Into x rest zs × Rearranged xs rest

  -- What a statement may make of the rows that its WHERE clause takes: the order of trades of one
  -- time is open.
  abbrev pub Ordered : List (Trade N) → List (Trade N) → Type 0
  Ordered rows page = Rearranged rows page × Descending page

  AllBefore-Into :
      (t x : Trade N) (xs zs : List (Trade N))
      → Into x xs zs
      → AllBefore t zs
      → AllBefore t xs × (x.time ≤ t.time)
  AllBefore-Into t x xs [] into h = elim into [ ]
  AllBefore-Into t x xs (z ∷ zs) (inl (same, rest)) (h, hs) = rw (← same, ← rest) (hs, h)
  AllBefore-Into t x xs (z ∷ zs) (inr (rest, e, into)) (h, hs) =
      let (before, x_before) = AllBefore-Into t x rest zs into hs in rw e ((h, before), x_before)

  Descending-Into :
      (x : Trade N) (xs zs : List (Trade N)) → Into x xs zs → Descending zs → Descending xs
  Descending-Into x xs [] into h = elim into [ ]
  Descending-Into x xs (z ∷ zs) (inl (same, rest)) (h, hs) = rw (← rest) hs
  Descending-Into x xs (z ∷ zs) (inr (rest, e, into)) (h, hs) =
      rw e ((AllBefore-Into z x rest zs into h).0, Descending-Into x rest zs into hs)

  -- A trade later than all the others can stand in front only.
  Into-first :
      (x : Trade N) (xs zs : List (Trade N))
      → Into x xs zs
      → AllEarlier x xs
      → Descending zs
      → zs ≡ x ∷ xs
  Into-first x xs [] into earlier h = elim into [ ]
  Into-first x xs (z ∷ zs) (inl (same, rest)) earlier h = rw (same, rest) refl
  Into-first x xs (z ∷ zs) (inr (rest, e, into)) earlier (h, hs) =
      let (earlier_z, _) = subst (λ l. AllEarlier x l) e earlier in
      let not_before = (AllBefore-Into z x rest zs into h).1 in absurd (omega arith)

  Descending-Strict :
      (xs zs : List (Trade N)) → Strict xs → Descending zs → Rearranged xs zs → zs ≡ xs
  Descending-Strict [] zs strict h same = same
  Descending-Strict (x ∷ xs) zs (earlier, strict) h (rest, into, same) =
      let e : rest ≡ xs =
        Descending-Strict xs rest strict (Descending-Into x rest zs into h) same in
      Into-first x xs zs (rw⁻¹ e into) earlier h

  -- What is put in first and what is put in last may change places.
  Into-swap :
      (x y : Trade N) (ws rest zs : List (Trade N))
      → Into y rest zs
      → Into x ws rest
      → (vs : List (Trade N)) × Into x vs zs × Into y ws vs
  Into-swap x y ws rest [] outer inner = elim outer [ ]
  Into-swap x y ws rest (z ∷ zs) (inl (same, others)) inner =
      (z ∷ ws, inr (ws, refl, rw others inner), inl (same, refl))
  Into-swap x y ws rest (z ∷ zs) (inr (rest', e, outer)) inner =
      elim (subst (λ l. Into x ws l) e inner)
        as (λ _. (vs : List (Trade N)) × Into x vs (z ∷ zs) × Into y ws vs) [
          | inl (same, others) ↦ (zs, inl (same, refl), rw (← others) outer)
          | inr (ws', e', inner') ↦
              let (vs, into_x, into_y) = Into-swap x y ws' rest' zs outer inner' in
              (z ∷ vs, inr (vs, refl, into_x), rw e' (inr (ws', refl, into_y)))
        ]

  Rearranged-Into :
      (x : Trade N) (xs ys zs : List (Trade N))
      → Into x xs ys
      → Rearranged ys zs
      → (rest : List (Trade N)) × Into x rest zs × Rearranged xs rest
  Rearranged-Into x xs [] zs into same = elim into [ ]
  Rearranged-Into x xs (y ∷ ys) zs (inl (e, others)) (rest, into_y, same) =
      (rest, rw (← e) into_y, rw (← others) same)
  Rearranged-Into x xs (y ∷ ys) zs (inr (xs', e, into)) (rest, into_y, same) =
      let (ws, into_x, same') = Rearranged-Into x xs' ys rest into same in
      let (vs, into_zs, into_vs) = Into-swap x y ws rest zs into_y into_x in
      (vs, into_zs, rw e (ws, into_vs, same'))

  Rearranged-trans :
      (xs ys zs : List (Trade N)) → Rearranged xs ys → Rearranged ys zs → Rearranged xs zs
  Rearranged-trans [] ys zs e same = subst (λ l. Rearranged l zs) e same
  Rearranged-trans (x ∷ xs) ys zs (rest, into, same) same' =
      let (rest', into', same'') = Rearranged-Into x rest ys zs into same' in
      (rest', into', Rearranged-trans xs rest rest' same same'')

  -- Where no two trades have one time, there is one order only.
  pub Ordered-Strict :
      (xs rows page : List (Trade N))
      → Strict xs
      → Rearranged xs rows
      → Ordered rows page
      → page ≡ xs
  Ordered-Strict xs rows page strict same (same', h) =
      Descending-Strict xs page strict h (Rearranged-trans xs rows page same same')
