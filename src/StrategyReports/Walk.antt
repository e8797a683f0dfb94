-- ===== src/StrategyReports/Walk.antt =====
-- A client of the trade log that asks for one page after the other until a page is empty.
use quant_api_gateway.Prelude.{
  ℕ, zero, suc, ◌+◌, ◌≤◌, ◌<◌, String, ◌≡◌, refl, sym, ap, ◌∙◌, Option, List, [], ◌∷◌, ◌++◌, map,
  arith, length, Result, ok,
}
use quant_api_gateway.Effects.{M, Exception, pure, ◌>>=◌}
use quant_api_gateway.Effects.Laws.{continue-ok}
use quant_api_gateway.Numbers.{Numbers}
use quant_api_gateway.StrategyReports.Dates.{date_to_utc, upper_bound}
use quant_api_gateway.StrategyReports.Rows.{ℤ, pos, Trade, take, drop, hits}
use quant_api_gateway.StrategyReports.Items.{
  Schema, TradeLogEntry, TradeLogPage, prepend, each, row_to_trade,
}
use quant_api_gateway.StrategyReports.Reads.{Pools, list_trades}
use quant_api_gateway.StrategyReports.Each.{each-append, each-empty}
use quant_api_gateway.StrategyReports.Ordered.{Strict, Rearranged, Ordered-Strict}
use quant_api_gateway.StrategyReports.Trades.{select_trade, ReadsTrades, list_trades-IsPage}

add_zero : (n : ℕ) → n ≡ 0 + n
add_zero n = omega arith

add_suc : (m n : ℕ) → suc (m + n) ≡ suc m + n
add_suc m n = omega arith

module _ {A : Type 0} where
  take-drop : (n : ℕ) (xs : List A) → take n xs ++ drop n xs ≡ xs
  take-drop zero xs = refl
  take-drop (suc n) [] = refl
  take-drop (suc n) (x ∷ xs) = ap (λ l. x ∷ l) (take-drop n xs)

  take_nil : (n : ℕ) → take {A = A} n [] ≡ []
  take_nil zero = refl
  take_nil (suc n) = refl

  drop_nil : (n : ℕ) → drop {A = A} n [] ≡ []
  drop_nil zero = refl
  drop_nil (suc n) = refl

  drop-drop : (m n : ℕ) (xs : List A) → drop n (drop m xs) ≡ drop (m + n) xs
  drop-drop zero n xs = ap (λ k. drop k xs) (add_zero n)
  drop-drop (suc m) n [] = drop_nil n ∙ sym (drop_nil (suc m + n))
  drop-drop (suc m) n (x ∷ xs) = drop-drop m n xs ∙ ap (λ k. drop k (x ∷ xs)) (add_suc m n)

  length-drop : (n : ℕ) (xs : List A) → length (drop n xs) ≤ length xs
  length-drop zero xs = omega arith
  length-drop (suc n) [] = omega arith
  length-drop (suc n) (x ∷ xs) = let h = length-drop n xs in omega arith

  -- A page that takes anything makes the rest shorter.
  drop-shorter : (n : ℕ) (x : A) (xs : List A) → 1 ≤ n → length (drop n (x ∷ xs)) < length (x ∷ xs)
  drop-shorter zero x xs h = omega arith
  drop-shorter (suc n) x xs h = let k = length-drop n xs in omega arith

module _ (N : Numbers) (J : Schema) (DB : Pools N J) (isoformat : ℕ → String)
    (law : ReadsTrades N J DB) (str_int : ℤ → String) (id : String) (from_date to_date : Option ℕ)
    (limit : ℕ) where
  open law use {trades}

  abbrev Log : Type 0
  Log = List (TradeLogEntry N)

  -- The pages from `offset` on, each of `limit` entries: the fuel is the number of requests.
  abbrev and_rest : Log → M DB.State Log → M DB.State Log
  and_rest [] rest = pure []
  and_rest (e ∷ items) rest = rest >>= λ more. pure ((e ∷ items) ++ more)

  abbrev pub walk : ℕ → ℕ → M DB.State Log
  walk zero offset = pure []
  walk (suc fuel) offset =
      let rest = walk fuel (offset + limit) in
      list_trades N J isoformat DB str_int id from_date to_date (pos limit) (pos offset) >>= λ page.
      and_rest page.items rest

  abbrev entry : Trade N → Result Exception (TradeLogEntry N)
  entry t = row_to_trade N (select_trade N t)

  each-entry :
      (ts : List (Trade N)) → each (row_to_trade N) (map (select_trade N) ts) ≡ each entry ts
  each-entry [] = refl
  each-entry (t ∷ ts) = ap (prepend entry (entry t)) (each-entry ts)

  nothing_left : (n : ℕ) (xs : List (Trade N)) → 1 ≤ n → take n xs ≡ [] → xs ≡ []
  nothing_left zero xs h e = absurd (omega arith)
  nothing_left (suc n) [] h e = refl
  nothing_left (suc n) (x ∷ xs) h e = cc

  step :
      (xs : List (Trade N)) (items log : Log) (rest : M DB.State Log) (t : DB.State)
      → 1 ≤ limit
      → each entry (take limit xs) ≡ ok items
      → ((more : Log)
          → length (drop limit xs) < length xs
          → (rest t).0 ≡ ok more
          → each entry (drop limit xs) ≡ ok more)
      → (and_rest items rest t).0 ≡ ok log
      → each entry xs ≡ ok log
  step xs [] log rest t pos_limit h rec k =
      let none_left = nothing_left limit xs pos_limit (each-empty entry (take limit xs) h) in
      ap (each entry) none_left ∙ k
  step [] (e ∷ items) log rest t pos_limit h rec k =
      let impossible : ok [] ≡ ok (e ∷ items) = sym (ap (each entry) (take_nil limit)) ∙ h in cc
  step (x ∷ xs) (e ∷ items) log rest t pos_limit h rec k =
      let f : Log → M DB.State Log = λ more. pure ((e ∷ items) ++ more) in
      let (more, answered, same) = continue-ok (rest t) f log k in
      ap (each entry) (sym (take-drop limit (x ∷ xs)))
      ∙ each-append entry (take limit (x ∷ xs)) (drop limit (x ∷ xs)) (e ∷ items) more h
          (rec more (drop-shorter limit x xs pos_limit) answered)
      ∙ sym (ap (λ z. z.0) same)
      ∙ k

  walk_from :
      (fuel offset : ℕ) (upper : Option ℕ) (s : DB.State) (log : Log) (all : List (Trade N))
      → 1 ≤ limit
      → upper_bound to_date ≡ ok upper
      → Strict N all
      → Rearranged N all (hits N id (date_to_utc from_date) upper (trades s))
      → length (drop offset all) < fuel
      → (walk fuel offset s).0 ≡ ok log
      → each entry (drop offset all) ≡ ok log
  walk_from zero offset upper s log all pos_limit bounded strict window enough h =
      absurd (omega arith)
  walk_from (suc fuel) offset upper s log all pos_limit bounded strict window enough h =
      let x =
        list_trades N J isoformat DB str_int id from_date to_date (pos limit) (pos offset) s in
      let f : TradeLogPage N → M DB.State Log =
        λ page. and_rest page.items (walk fuel (offset + limit)) in
      let (page, answered, same) = continue-ok x f log h in
      let (upper', bounded', in_range, natural, is_page, kept) =
        list_trades-IsPage N J DB isoformat law str_int id from_date to_date (pos limit)
          (pos offset) s page answered in
      let same_bound : upper' ≡ upper = cc in
      let lower = date_to_utc from_date in
      let (found, ordered, of_page, _, _, _) = is_page in
      let same_order : found ≡ all =
        Ordered-Strict N all (hits N id lower upper (trades s)) found strict window
          (rw⁻¹ same_bound ordered) in
      let page_valid : each entry (take limit (drop offset all)) ≡ ok page.items =
        sym (each-entry (take limit (drop offset all)))
        ∙ ap (λ ts. each (row_to_trade N) (map (select_trade N) (take limit (drop offset ts))))
            (sym same_order)
        ∙ of_page in
      let next = sym (drop-drop offset limit all) in
      step (drop offset all) page.items log (walk fuel (offset + limit)) x.1 pos_limit page_valid
        (λ more shorter ended.
          ap (each entry) (sym next)
          ∙ walk_from fuel (offset + limit) upper x.1 more all pos_limit bounded strict
              (rw kept window) (let size = ap length next in omega arith) ended)
        (sym (ap (λ z. z.0) same) ∙ h)

  -- Where no two trades of the window have one time, and with a database that answers its statements
  -- as it documents, a client that asks for pages of the same limit, one after the other, until one
  -- is empty, reads an entry for each trade of the window, once and from the latest to the first, when
  -- its requests are answered and there are more of them than trades.
  pub walk-all :
      (fuel : ℕ) (upper : Option ℕ) (s : DB.State) (log : Log) (all : List (Trade N))
      → 1 ≤ limit
      → upper_bound to_date ≡ ok upper
      → Strict N all
      → Rearranged N all (hits N id (date_to_utc from_date) upper (trades s))
      → length all < fuel
      → (walk fuel 0 s).0 ≡ ok log
      → each (row_to_trade N) (map (select_trade N) all) ≡ ok log
  walk-all fuel upper s log all pos_limit bounded strict window enough h =
      each-entry all ∙ walk_from fuel 0 upper s log all pos_limit bounded strict window enough h
