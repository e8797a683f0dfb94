-- ===== src/Clients.antt =====
-- The connections that a module keeps in a global, created by the first call of its `get_…` function
-- and dropped by its `close_…` function: db/postgres.py, db/csm_set_postgres.py, db/redis_client.py,
-- db/mongo.py and the HTTP clients of the four proxied engines. One call runs at a time.
pub mod Lifespan
use quant_api_gateway.Prelude.{
  ℕ, zero, suc, ◌+◌, ◌-◌, ◌≡◌, refl, sym, ap, ◌∙◌, ◌⊎◌, inl, inr, Bool, true, false, List, [], ◌∷◌,
  arith, ◌==◌, if◌then◌else◌, Bool-cases, Result, ok, err,
}
use quant_api_gateway.Effects.{M, Exception, other}

pub data Resource : Type 0 where
  postgres csm_set redis mongo market_data execution orderbook crypto : Resource

abbrev index : Resource → ℕ
index postgres = 0
index csm_set = 1
index redis = 2
index mongo = 3
index market_data = 4
index execution = 5
index orderbook = 6
index crypto = 7

abbrev pub same : Resource → Resource → Bool
same q r = index q == index r

-- Whether the global of a module holds a connection, and how many of those that it created are open.
pub record Connections : Type 0 where
  pub held : Resource → Bool
  pub opened : Resource → ℕ

abbrev pub set : {A : Type 0} → Resource → A → (Resource → A) → Resource → A
set q a f r = if same q r then a else f r

-- What is outside: whether creating a connection raises, and whether closing one does.
pub record Outside : Type 0 where
  pub refuses : Resource → Connections → Bool
  pub breaks : Resource → Connections → Bool

module _ (O : Outside) where
  -- `if _client is None: _client = …`, then `return _client`.
  unfoldable pub get_client : Resource → M Connections (Unit {0})
  get_client r c =
      if c.held r
      then (ok tt, c)
      else if O.refuses r c
      then (err other, c)
      else (ok tt, record { held = set r true c.held; opened = set r (suc (c.opened r)) c.opened })

  -- `if _client is not None: await _client.aclose(); _client = None`
  unfoldable pub close_client : Resource → M Connections (Unit {0})
  close_client r c =
      if c.held r
      then if O.breaks r c
        then (err other, c)
        else (ok tt, record { held = set r false c.held; opened = set r (c.opened r - 1) c.opened })
      else (ok tt, c)

-- Every module has open exactly the connection that its global holds.
abbrev pub IsOwned : Connections → Type 0
IsOwned c = (r : Resource) → c.opened r ≡ (if c.held r then 1 else 0)

abbrev pub none_open : Connections
none_open = record { held = λ r. false; opened = λ r. 0 }

pub same→eq : (q r : Resource) → same q r ≡ true → q ≡ r
same→eq postgres postgres h = refl
same→eq csm_set csm_set h = refl
same→eq redis redis h = refl
same→eq mongo mongo h = refl
same→eq market_data market_data h = refl
same→eq execution execution h = refl
same→eq orderbook orderbook h = refl
same→eq crypto crypto h = refl
same→eq q r h = cc

same_self : (r : Resource) → same r r ≡ true
same_self r = ground arith

module _ (O : Outside) where
  pub get_client-IsOwned :
      (r : Resource) (c : Connections) → IsOwned c → IsOwned (get_client O r c).1
  unfolding get_client
  get_client-IsOwned r c owned q = elim (Bool-cases (c.held r)) [
    | inl there ↦ rw there (owned q)
    | inr absent ↦ elim (Bool-cases (O.refuses r c)) [
      | inl refused ↦ rw (absent, refused) (owned q)
      | inr created ↦ elim (Bool-cases (same r q)) [
        | inl here ↦ rw (absent, created, here) (ap suc (owned r ∙ rw absent refl))
        | inr there ↦ rw (absent, created, there) (owned q)
      ]
    ]
  ]

  pub close_client-IsOwned :
      (r : Resource) (c : Connections) → IsOwned c → IsOwned (close_client O r c).1
  unfolding close_client
  close_client-IsOwned r c owned q = elim (Bool-cases (c.held r)) [
    | inr absent ↦ rw absent (owned q)
    | inl there ↦ elim (Bool-cases (O.breaks r c)) [
      | inl broken ↦ rw (there, broken) (owned q)
      | inr closed ↦ elim (Bool-cases (same r q)) [
        | inl here ↦
            let one : c.opened r ≡ 1 = owned r ∙ rw there refl in
            rw (there, closed, here) (rw one refl)
        | inr elsewhere ↦ rw (there, closed, elsewhere) (owned q)
      ]
    ]
  ]

  -- A connection that closes is held no more, and no other becomes held.
  pub close_client-drops :
      (r : Resource) (c : Connections)
      → O.breaks r c ≡ false
      → ((close_client O r c).0 ≡ ok tt)
        × ((close_client O r c).1.held r ≡ false)
        × ((q : Resource) → c.held q ≡ false → (close_client O r c).1.held q ≡ false)
  unfolding close_client
  close_client-drops r c closes = elim (Bool-cases (c.held r)) [
    | inr absent ↦ (rw absent refl, rw absent absent, λ q h. rw absent h)
    | inl there ↦ (
      rw (there, closes) refl,
      rw (there, closes) (rw (same_self r) refl),
      λ q h.
          rw (there, closes)
            (elim (Bool-cases (same r q)) [
              | inl here ↦ rw here refl
              | inr elsewhere ↦ rw elsewhere h
            ]),
    )
  ]
