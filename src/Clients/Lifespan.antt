-- ===== src/Clients/Lifespan.antt =====
-- The lifespan of main.py: what is loaded and opened before the requests, and closed after them.
use quant_api_gateway.Prelude.{
  suc, String, ◌≡◌, refl, ◌∙◌, ◌⊎◌, inl, inr, Bool, true, false, none, some, List, [], ◌∷◌, ◌||◌,
  Bool-cases, Result, ok, err,
}
use quant_api_gateway.Json.{Json}
use quant_api_gateway.Effects.{M, Exception, other, pure, ◌>>◌}
use quant_api_gateway.Effects.Laws.{then-Keeps}
use quant_api_gateway.Registry.{StrategyRegistry, Global, set_registry, clear_registry}
use quant_api_gateway.Registry.Load.{ReadText, load_registry, startup}
use quant_api_gateway.Clients.{
  Resource, postgres, csm_set, redis, mongo, market_data, execution, orderbook, crypto, same,
  same→eq, Connections, Outside, get_client, close_client, IsOwned, get_client-IsOwned,
  close_client-IsOwned, close_client-drops,
}

abbrev World : Type 0
World = Connections × Global

abbrev on_connections : {A : Type 0} → M Connections A → M World A
on_connections m (c, g) = let (r, c') = m c in (r, (c', g))

abbrev on_registry : {A : Type 0} → M Global A → M World A
on_registry m (c, g) = let (r, g') = m g in (r, (c, g'))

abbrev one_among : Resource → List Resource → Bool
one_among q [] = false
one_among q (r ∷ rs) = same q r || one_among q rs

abbrev opened_first : List Resource
opened_first = postgres ∷ csm_set ∷ redis ∷ []

abbrev closed_last : List Resource
closed_last = postgres ∷ csm_set ∷ redis ∷ market_data ∷ execution ∷ orderbook ∷ crypto ∷ []

listed : (r : Resource) → same r mongo ≡ false → one_among r closed_last ≡ true
listed postgres h = refl
listed csm_set h = refl
listed redis h = refl
listed mongo h = cc
listed market_data h = refl
listed execution h = refl
listed orderbook h = refl
listed crypto h = refl

module _ (O : Outside) where
  -- `await` one after the other.
  abbrev open_each : List Resource → M Connections (Unit {0})
  open_each [] = pure tt
  open_each (r ∷ resources) = get_client O r >> open_each resources

  abbrev close_each : List Resource → M Connections (Unit {0})
  close_each [] = pure tt
  close_each (r ∷ resources) = close_client O r >> close_each resources

  -- The calls of the requests, each of which ends in a response whether or not it raises.
  abbrev serve_each : List Resource → Connections → Connections
  serve_each [] c = c
  serve_each (r ∷ requests) c = serve_each requests (get_client O r c).1

  module _ (loads : String → Result String Json)
      (model_validate : Json → Result String StrategyRegistry) (path : String) where
    unfoldable pub start : ReadText → M World (Unit {0})
    start read =
        on_registry (startup loads model_validate path read)
        >> on_connections (open_each opened_first)

    unfoldable pub shutdown : M World (Unit {0})
    shutdown =
        on_connections (
          close_each
            (postgres ∷ csm_set ∷ redis ∷ market_data ∷ execution ∷ orderbook ∷ crypto ∷ []))
        >> on_registry clear_registry

    abbrev run_requests : List Resource → M World (Unit {0})
    run_requests requests (c, g) = (ok tt, (serve_each requests c, g))

    -- `try: yield finally: …`; the `yield` returns when the server stops.
    unfoldable pub lifespan : ReadText → List Resource → M World (Unit {0})
    unfolding start shutdown
    lifespan read requests = start read >> (run_requests requests >> shutdown)

  open_each-IsOwned :
      (rs : List Resource) (c : Connections) → IsOwned c → IsOwned (open_each rs c).1
  open_each-IsOwned [] c owned = owned
  open_each-IsOwned (r ∷ rs) c owned =
      then-Keeps IsOwned (get_client O r) (λ _. open_each rs) (get_client-IsOwned O r)
        (λ _. open_each-IsOwned rs) c owned

  close_each-IsOwned :
      (rs : List Resource) (c : Connections) → IsOwned c → IsOwned (close_each rs c).1
  close_each-IsOwned [] c owned = owned
  close_each-IsOwned (r ∷ rs) c owned =
      then-Keeps IsOwned (close_client O r) (λ _. close_each rs) (close_client-IsOwned O r)
        (λ _. close_each-IsOwned rs) c owned

  serve_each-IsOwned :
      (requests : List Resource) (c : Connections) → IsOwned c → IsOwned (serve_each requests c)
  serve_each-IsOwned [] c owned = owned
  serve_each-IsOwned (r ∷ requests) c owned =
      serve_each-IsOwned requests (get_client O r c).1 (get_client-IsOwned O r c owned)

  -- Where no close raises, all that are closed are held no more.
  close_each-drops :
      (rs : List Resource) (c : Connections)
      → ((r : Resource) (c' : Connections) → O.breaks r c' ≡ false)
      → ((close_each rs c).0 ≡ ok tt)
        × ((q : Resource)
            → (one_among q rs ≡ true) ⊎ (c.held q ≡ false)
            → (close_each rs c).1.held q ≡ false)
  close_each-drops [] c closes = (refl, λ q h. elim h [ inl e ↦ cc | inr e ↦ e ])
  close_each-drops (r ∷ rs) c closes =
      let (ended, dropped, kept) = close_client-drops O r c (closes r c) in
      let (ended', dropped') = close_each-drops rs (close_client O r c).1 closes in
      (
        rw ended ended',
        λ q h. rw ended (
            dropped' q (elim h [
              | inr e ↦ inr (kept q e)
              | inl e ↦ elim (Bool-cases (same q r)) [
                | inl here ↦ inr (rw (same→eq q r here) dropped)
                | inr elsewhere ↦ inl (rw elsewhere at e)
              ]
            ])),
      )

  module _ (loads : String → Result String Json)
      (model_validate : Json → Result String StrategyRegistry) (path : String) (read : ReadText)
      (requests : List Resource) (c : Connections) (g : Global) where
    abbrev started : Result Exception (Unit {0}) × World
    started = start loads model_validate path read (c, g)

    abbrev ended : Result Exception (Unit {0}) × World
    ended = lifespan loads model_validate path read requests (c, g)

    abbrev Owned : World → Type 0
    Owned w = IsOwned w.0

    start-IsOwned : (w : World) → Owned w → Owned (start loads model_validate path read w).1
    unfolding start
    start-IsOwned w owned =
        then-Keeps Owned (on_registry (startup loads model_validate path read))
          (λ _. on_connections (open_each opened_first)) (λ v p. p)
          (λ _ v p. open_each-IsOwned opened_first v.0 p) w owned

    shutdown-IsOwned : (w : World) → Owned w → Owned (shutdown loads model_validate path w).1
    unfolding shutdown
    shutdown-IsOwned w owned =
        then-Keeps Owned (on_connections (close_each closed_last)) (λ _. on_registry clear_registry)
          (λ v p. close_each-IsOwned closed_last v.0 p) (λ _ v p. p) w owned

    -- However the lifespan ends, and whatever fails to open or to close in it, every module has open
    -- exactly the connection that its global holds: none is lost, and none is opened twice.
    pub lifespan-IsOwned : IsOwned c → IsOwned ended.1.0
    unfolding lifespan
    lifespan-IsOwned owned =
        then-Keeps Owned (start loads model_validate path read)
          (λ _.
            run_requests loads model_validate path requests >> shutdown loads model_validate path)
          start-IsOwned
          (λ _ v p.
            shutdown-IsOwned (serve_each requests v.0, v.1) (serve_each-IsOwned requests v.0 p))
          (c, g) owned

    shut :
        (v : Connections) (h : Global)
        → ((r : Resource) (c' : Connections) → O.breaks r c' ≡ false)
        → ((shutdown loads model_validate path (v, h)).0 ≡ ok tt)
          × ((r : Resource)
              → same r mongo ≡ false
              → (shutdown loads model_validate path (v, h)).1.0.held r ≡ false)
          × ((shutdown loads model_validate path (v, h)).1.1 ≡ none)
    unfolding shutdown clear_registry
    shut v h closes =
        let (done, dropped) = close_each-drops closed_last v closes in
        (rw done refl, λ r other. rw done (dropped r (inl (listed r other))), rw done refl)

    -- When the start-up succeeded and no close fails, the lifespan ends without an exception, nothing
    -- is left open but what the Mongo module may have opened, and the registry is dropped.
    pub lifespan-Closes :
        IsOwned c
        → ((r : Resource) (c' : Connections) → O.breaks r c' ≡ false)
        → started.0 ≡ ok tt
        → (ended.0 ≡ ok tt)
          × ((r : Resource) → same r mongo ≡ false → ended.1.0.opened r ≡ 0)
          × (ended.1.1 ≡ none)
    unfolding lifespan
    lifespan-Closes owned closes done =
        let w = started.1 in
        let (finished, dropped, cleared) = shut (serve_each requests w.0) w.1 closes in
        (
          rw done finished,
          λ r other. lifespan-IsOwned owned r ∙ rw done (rw (dropped r other) refl),
          rw done cleared,
        )

    -- When the registry loads and the first pool opens, but the pool of db_csm_set does not, the
    -- lifespan raises, and the first pool stays open and the registry set: the shutdown calls are
    -- behind a `finally` that begins after the three connections.
    pub lifespan-leaks :
        (registry : StrategyRegistry)
        → load_registry loads model_validate path read ≡ ok registry
        → c.held postgres ≡ false
        → c.held csm_set ≡ false
        → O.refuses postgres c ≡ false
        → ((c' : Connections) → O.refuses csm_set c' ≡ true)
        → (ended.0 ≡ err other)
          × (ended.1.0.held postgres ≡ true)
          × (ended.1.0.opened postgres ≡ suc (c.opened postgres))
          × (ended.1.1 ≡ some registry)
    unfolding lifespan start startup get_client set_registry
    lifespan-leaks registry loaded absent absent' created refused =
        rw loaded (rw (absent, created) (rw absent' (rw (refused _) (refl, refl, refl, refl))))
