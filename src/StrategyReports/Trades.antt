-- ===== src/StrategyReports/Trades.antt =====
-- What `list_trades` answers, and what a client reads who asks for page after page.
use quant_api_gateway.Prelude.{
  ℕ, String, ◌≡◌, refl, sym, ap, ◌∙◌, true, not, Option, none, some, List, [], ◌∷◌, map,
  if◌then◌else◌, length, Result, ok, err,
}
use quant_api_gateway.Effects.{
  M, Exception, raise, continue, lift, is_postgres_error, ◌>>=◌, pure, handle,
}
use quant_api_gateway.Effects.Laws.{handle-instead, continue-ok, instead, guard-ok}
use quant_api_gateway.Numbers.{Numbers}
use quant_api_gateway.StrategyReports.Dates.{utc, date_to_utc, upper_bound}
use quant_api_gateway.StrategyReports.Ordered.{Ordered}
use quant_api_gateway.StrategyReports.Rows.{ℤ, pos, Trade, hits, take, drop}
use quant_api_gateway.StrategyReports.Items.{
  Schema, TradeRow, TradeLogEntry, TradeLogPage, each, row_to_trade, limit_ok, absolute, is_natural,
  corrupt, total_or_zero,
}
use quant_api_gateway.StrategyReports.Reads.{
  Pools, page_of, read_trades, trades_statements, list_trades,
}

module _ (N : Numbers) where
  abbrev or_else : {A : Type 0} → Option A → A → A
  or_else none a = a
  or_else (some b) a = b

  -- The SELECT list of the page: a price stands in for a missing entry or exit price.
  abbrev pub select_trade : Trade N → TradeRow N
  select_trade t = record {
    time = utc t.time;
    symbol = t.symbol;
    side = t.side;
    quantity = t.quantity;
    entry_price = or_else t.entry_price t.price;
    exit_price = or_else t.exit_price t.price;
    realized_pnl = or_else t.realized_pnl N.zero;
    duration_bars = or_else t.duration_bars (pos 0);
    commission = or_else t.commission N.zero;
  }

  module _ (J : Schema) (DB : Pools N J) where
    -- What PostgreSQL documents of the two statements on `trade_history`: the count and the page are
    -- those of the rows that the WHERE clause takes, in an order that ORDER BY allows, and
    -- neither changes the table. ORDER BY time leaves the order of trades of one time to the
    -- database, which may choose another with every request.
    pub record ReadsTrades : Type 0 where
      pub trades : DB.State → List (Trade N)
      pub counted :
          (id : String) (lower upper : Option ℕ) (s : DB.State) (total : Option ℕ)
          → (DB.count_trades id lower upper s).0 ≡ ok total
          → total ≡ some (length (hits N id lower upper (trades s)))
      pub paged :
          (id : String) (lower upper : Option ℕ) (limit offset : ℕ) (s : DB.State)
          (rows : List (TradeRow N))
          → (DB.select_page id lower upper limit offset s).0 ≡ ok rows
          → (all : List (Trade N)) × Ordered N (hits N id lower upper (trades s)) all
            × (rows ≡ map select_trade (take limit (drop offset all)))
      pub count_reads :
          (id : String) (lower upper : Option ℕ) (s : DB.State)
          → trades (DB.count_trades id lower upper s).1 ≡ trades s
      pub page_reads :
          (id : String) (lower upper : Option ℕ) (limit offset : ℕ) (s : DB.State)
          → trades (DB.select_page id lower upper limit offset s).1 ≡ trades s

    module _ (isoformat : ℕ → String) (law : ReadsTrades) where
      open law use {trades}

      -- The rows are those of one page of the trades of the window, in an order that ORDER BY allows.
      abbrev Selected : String → Option ℕ → Option ℕ → ℕ → ℕ → DB.State → List (TradeRow N) → Type 0
      Selected id lower upper limit offset s rows =
          (all : List (Trade N)) × Ordered N (hits N id lower upper (trades s)) all
          × (rows ≡ map select_trade (take limit (drop offset all)))

      abbrev paired : Option ℕ → List (TradeRow N) → M DB.State (Option ℕ × List (TradeRow N))
      paired n page = pure (n, page)

      paired-state :
          (n : Option ℕ) (y : Result Exception (List (TradeRow N)) × DB.State)
          → (continue y.0 (paired n) y.1).1 ≡ y.1
      paired-state n (ok page, t) = refl
      paired-state n (err e, t) = refl

      after_page :
          (n : Option ℕ) (y : Result Exception (List (TradeRow N)) × DB.State) (total : Option ℕ)
          (rows : List (TradeRow N))
          → (continue y.0 (paired n) y.1).0 ≡ ok (total, rows)
          → (total ≡ n) × (y.0 ≡ ok rows)
      after_page n (ok page, t) total rows h = (cc, cc)
      after_page n (err e, t) total rows h = cc

      -- The table, and what was asked of it, after both statements.
      record Read (id : String) (lower upper : Option ℕ) (limit offset : ℕ) (s : DB.State)
          (x : Result Exception (Option ℕ × List (TradeRow N)) × DB.State) : Type 0 where
        of_total :
            (total : Option ℕ) (rows : List (TradeRow N))
            → x.0 ≡ ok (total, rows)
            → total ≡ some (length (hits N id lower upper (trades s)))
        of_rows :
            (total : Option ℕ) (rows : List (TradeRow N))
            → x.0 ≡ ok (total, rows)
            → Selected id lower upper limit offset s rows
        unchanged : trades x.1 ≡ trades s

      after_count :
          (id : String) (lower upper : Option ℕ) (limit offset : ℕ) (s : DB.State)
          (x : Result Exception (Option ℕ) × DB.State)
          → ((n : Option ℕ) → x.0 ≡ ok n → n ≡ some (length (hits N id lower upper (trades s))))
          → trades x.1 ≡ trades s
          → Read id lower upper limit offset s (
              continue x.0
                (λ total. DB.select_page id lower upper limit offset >>= paired total)
                x.1)
      after_count id lower upper limit offset s (err e, t) counted same = record {
        of_total = λ total rows h. cc;
        of_rows = λ total rows h. cc;
        unchanged = same;
      }
      after_count id lower upper limit offset s (ok n, t) counted same =
          let y = DB.select_page id lower upper limit offset t in
          record {
            of_total = λ total rows h. (after_page n y total rows h).0 ∙ counted n refl;
            of_rows = λ total rows h.
                rw (← same)
                  (law.paged id lower upper limit offset t rows (after_page n y total rows h).1);
            unchanged =
                ap trades (paired-state n y) ∙ law.page_reads id lower upper limit offset t ∙ same;
          }

      statements-Read :
          (id : String) (lower upper : Option ℕ) (limit offset : ℕ) (s : DB.State)
          → Read id lower upper limit offset s
              (trades_statements N J isoformat DB id lower upper limit offset s)
      statements-Read id lower upper limit offset s =
          after_count id lower upper limit offset s (DB.count_trades id lower upper s)
            (λ n h. law.counted id lower upper s n h) (law.count_reads id lower upper s)

      -- The page that answers a query: of the trades of the window, from the latest to the first, with
      -- those of one time in some order, the valid entries of `limit` from the `offset`th on, and the
      -- number of all of them.
      abbrev pub IsPage : String → Option ℕ → Option ℕ → ℤ → ℤ → DB.State → TradeLogPage N → Type 0
      IsPage id lower upper limit offset s page =
          (all : List (Trade N)) × Ordered N (hits N id lower upper (trades s)) all
          × (each (row_to_trade N)
                (map select_trade (take (absolute N limit) (drop (absolute N offset) all)))
              ≡ ok page.items)
          × (page.total ≡ length (hits N id lower upper (trades s)))
          × (page.limit ≡ limit)
          × (page.offset ≡ offset)

      abbrev paging :
          ℤ → ℤ → Option ℕ → Result Exception (List (TradeLogEntry N)) → M DB.State (TradeLogPage N)
      paging limit offset total r =
          lift r >>= λ items. pure (page_of N J isoformat DB limit offset total items)

      paging-page :
          (limit offset : ℤ) (total : Option ℕ) (r : Result Exception (List (TradeLogEntry N)))
          (t : DB.State) (page : TradeLogPage N)
          → (paging limit offset total r t).0 ≡ ok page
          → (r ≡ ok page.items)
            × (page.total ≡ total_or_zero N total)
            × (page.limit ≡ limit)
            × (page.offset ≡ offset)
            × ((paging limit offset total r t).1 ≡ t)
      paging-page limit offset total (ok items) t page h =
          let e : record {
            items = items;
            total = total_or_zero N total;
            limit = limit;
            offset = offset;
          }
              ≡ page =
            cc in
          (
            (ap (λ p. ok p.items) e),
            sym (ap (λ p. p.total) e),
            sym (ap (λ p. p.limit) e),
            sym (ap (λ p. p.offset) e),
            refl,
          )
      paging-page limit offset total (err e) t page h = cc

      read_trades-IsPage :
          (id : String) (lower upper : Option ℕ) (limit offset : ℤ) (s : DB.State)
          (page : TradeLogPage N)
          → (read_trades N J isoformat DB id lower upper limit offset s).0 ≡ ok page
          → IsPage id lower upper limit offset s page
            × (trades (read_trades N J isoformat DB id lower upper limit offset s).1 ≡ trades s)
      read_trades-IsPage id lower upper limit offset s page h =
          let x =
            trades_statements N J isoformat DB id lower upper (absolute N limit) (absolute N offset)
              s in
          let r = statements-Read id lower upper (absolute N limit) (absolute N offset) s in
          let failure = corrupt "failed to read trade_history for {!r}" (id ∷ []) in
          let y = handle x.0 (instead is_postgres_error failure) x.1 in
          let f : Option ℕ × List (TradeRow N) → M DB.State (TradeLogPage N) =
            λ a. paging limit offset a.0 (each (row_to_trade N) a.1) in
          let (a, answered, e) = continue-ok y f page h in
          let (done, same) = handle-instead is_postgres_error failure x a answered in
          let (all, ordered, of_page) = r.of_rows a.0 a.1 done in
          let (valid, total, l, o, kept) =
            paging-page limit offset a.0 (each (row_to_trade N) a.1) y.1 page
              (sym (ap (λ z. z.0) e) ∙ h) in
          (
            (
              all,
              ordered,
              ap (each (row_to_trade N)) (sym of_page) ∙ valid,
              total ∙ ap (total_or_zero N) (r.of_total a.0 a.1 done),
              l,
              o,
            ),
            ap (λ z. trades z.1) e ∙ ap trades kept ∙ ap (λ z. trades z.1) same ∙ r.unchanged,
          )

      -- With a database that answers its statements as it documents, a page that `list_trades`
      -- answers is the page asked for: the limit is between 1 and 1000, the offset is not negative,
      -- the dates have a window, the entries are those of the trades of the window, from the latest to
      -- the first and with those of one time in some order, from the offset on, as many as the limit
      -- allows, and the total counts all of them. The table is left as it was.
      pub list_trades-IsPage :
          (str_int : ℤ → String) (id : String) (from_date to_date : Option ℕ) (limit offset : ℤ)
          (s : DB.State) (page : TradeLogPage N)
          → let x = list_trades N J isoformat DB str_int id from_date to_date limit offset s in
            x.0 ≡ ok page
            → (upper : Option ℕ) × (upper_bound to_date ≡ ok upper)
              × (limit_ok N limit ≡ true)
              × (is_natural N offset ≡ true)
              × IsPage id (date_to_utc from_date) upper limit offset s page
              × (trades x.1 ≡ trades s)
      unfolding list_trades
      list_trades-IsPage str_int id from_date to_date limit offset s page h =
          let lower = date_to_utc from_date in
          let f : Option ℕ → M DB.State (TradeLogPage N) =
            λ upper. read_trades N J isoformat DB id lower upper limit offset in
          let late = lift (upper_bound to_date) >>= f in
          let (in_range, e) =
            guard-ok (limit_ok N limit) _
              (if not (is_natural N offset)
                then raise (corrupt "offset out of range: {}" (str_int offset ∷ []))
                else late)
              s page h in
          let (natural, e') =
            guard-ok (is_natural N offset) _ late s page (sym (ap (λ z. z.0) e) ∙ h) in
          let (upper, bounded, e'') =
            continue-ok (upper_bound to_date, s) f page (sym (ap (λ z. z.0) (e ∙ e')) ∙ h) in
          let (is_page, kept) =
            read_trades-IsPage id lower upper limit offset s page
              (sym (ap (λ z. z.0) (e ∙ e' ∙ e'')) ∙ h) in
          (upper, bounded, in_range, natural, is_page, ap (λ z. trades z.1) (e ∙ e' ∙ e'') ∙ kept)

      -- A query that is in range is answered when both statements answer and their rows are valid.
      list_trades-answers :
          (str_int : ℤ → String) (id : String) (from_date to_date upper : Option ℕ)
          (limit offset : ℤ) (s : DB.State) (total : Option ℕ) (rows : List (TradeRow N))
          (items : List (TradeLogEntry N))
          → upper_bound to_date ≡ ok upper
          → limit_ok N limit ≡ true
          → is_natural N offset ≡ true
          → (DB.count_trades id (date_to_utc from_date) upper s).0 ≡ ok total
          → (DB.select_page id
              (date_to_utc from_date)
              upper
              (absolute N limit)
              (absolute N offset)
              (DB.count_trades id (date_to_utc from_date) upper s).1).0
            ≡ ok rows
          → each (row_to_trade N) rows ≡ ok items
          → (list_trades N J isoformat DB str_int id from_date to_date limit offset s).0
            ≡ ok (page_of N J isoformat DB limit offset total items)
      unfolding list_trades
      list_trades-answers str_int id from_date to_date upper limit offset s total rows items bounded
            in_range natural counted paged valid =
          rw (in_range, natural, bounded, counted, paged, valid) refl
