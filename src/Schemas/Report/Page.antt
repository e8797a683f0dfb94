-- ===== src/Schemas/Report/Page.antt =====
-- TradeLogPage and TradeLogEntry of schemas/strategy_report.py: the document that a page of trades
-- is dumped as.
use Prim.Native.String.{count}
use quant_api_gateway.Prelude.{
  ℕ, ◌≤◌, String, ◌≡◌, sym, ◌⊎◌, inl, inr, true, some, Bool-cases, arith, [], ◌∷◌, one_of, str_eq,
  eq_iff,
}
use quant_api_gateway.Json.{Json, text, array, object, Items, nil, cons, end, field}
use quant_api_gateway.StrategyReports.Dates.{utc}
use quant_api_gateway.StrategyReports.Rows.{pos}
use quant_api_gateway.Schemas.{Scalars, Pydantic}
use quant_api_gateway.Schemas.Typed.{Typed, AllItems}
use quant_api_gateway.Schemas.Report.{page, shape_of, trade_log_entry, trade_log_page}
use quant_api_gateway.Schemas.Report.Laws.{model_validate-Typed}

module _ (S : Scalars) where
  record Entry (v : Json) : Type 0 where
    entry_time : ℕ
    exit_time : ℕ
    symbol : String
    side : String
    qty : S.Decimal
    entry_price : S.Decimal
    exit_price : S.Decimal
    realized_pnl : S.Decimal
    duration_bars : ℕ
    commission : S.Decimal
    written :
        v
        ≡ object (
            field "entry_time" (S.datetime_out (utc entry_time)) (
              field "exit_time" (S.datetime_out (utc exit_time)) (
                field "symbol" (text symbol) (
                  field "side" (text side) (
                    field "qty" (S.decimal_out qty) (
                      field "entry_price" (S.decimal_out entry_price) (
                        field "exit_price" (S.decimal_out exit_price) (
                          field "realized_pnl" (S.decimal_out realized_pnl) (
                            field "duration_bars"
                              (S.integer_out (pos duration_bars))
                              (field "commission" (S.decimal_out commission) end))))))))))
    named : 1 ≤ count symbol
    sided : (side ≡ "LONG") ⊎ (side ≡ "SHORT")

  pub record PageOfTrades (v : Json) : Type 0 where
    items : Items
    total : ℕ
    limit : ℕ
    offset : ℕ
    written :
        v
        ≡ object (
            field "items" (array items) (
              field "total" (S.integer_out (pos total)) (
                field "limit"
                  (S.integer_out (pos limit))
                  (field "offset" (S.integer_out (pos offset)) end))))
    entries : AllItems Entry items
    some_asked : 1 ≤ limit
    bounded : limit ≤ 1000

  side_known : (s : String) → one_of s ("LONG" ∷ "SHORT" ∷ []) ≡ true → (s ≡ "LONG") ⊎ (s ≡ "SHORT")
  side_known s h = elim (Bool-cases (str_eq "LONG" s)) [
    | inl e ↦ inl (sym ((eq_iff "LONG" s).0 e))
    | inr e ↦ elim (Bool-cases (str_eq "SHORT" s)) [
      | inl e' ↦ inr (sym ((eq_iff "SHORT" s).0 e'))
      | inr e' ↦ absurd (ground arith)
    ]
  ]

  Typed-Entry : (v : Json) → Typed S trade_log_entry v → Entry v
  unfolding trade_log_entry Typed
  Typed-Entry v
        (
          fields,
          e,
          (
            v0,
            r0,
            e0,
            (t0, f0),
            (
              v1,
              r1,
              e1,
              (t1, f1),
              (
                v2,
                r2,
                e2,
                (symbol, f2, sized),
                (
                  v3,
                  r3,
                  e3,
                  (side, f3, known),
                  (
                    v4,
                    r4,
                    e4,
                    (qty, f4),
                    (
                      v5,
                      r5,
                      e5,
                      (entry_price, f5),
                      (
                        v6,
                        r6,
                        e6,
                        (exit_price, f6),
                        (
                          v7,
                          r7,
                          e7,
                          (pnl, f7),
                          (v8, r8, e8, (bars, f8, _), (v9, r9, e9, (commission, f9), last)),
                        ),
                      ),
                    ),
                  ),
                ),
              ),
            ),
          ),
        ) =
      record {
        entry_time = t0;
        exit_time = t1;
        symbol = symbol;
        side = side;
        qty = qty;
        entry_price = entry_price;
        exit_price = exit_price;
        realized_pnl = pnl;
        duration_bars = bars;
        commission = commission;
        written = cc;
        named = ground arith;
        sided = side_known side known;
      }

  Typed-entries : (items : Items) → AllItems (Typed S trade_log_entry) items → AllItems Entry items
  Typed-entries nil h = tt
  Typed-entries (cons v items) (h, hs) = (Typed-Entry v h, Typed-entries items hs)

  Typed-PageOfTrades : (v : Json) → Typed S trade_log_page v → PageOfTrades v
  unfolding trade_log_page Typed
  Typed-PageOfTrades v
        (
          fields,
          e,
          (
            v0,
            r0,
            e0,
            (items, f0, all),
            (
              v1,
              r1,
              e1,
              (total, f1, _),
              (v2, r2, e2, (limit, f2, bounds), (v3, r3, e3, (offset, f3, _), last)),
            ),
          ),
        ) =
      record {
        items = items;
        total = total;
        limit = limit;
        offset = offset;
        written = cc;
        entries = Typed-entries items all;
        some_asked = ground arith;
        bounded = ground arith;
      }

  -- What validates as a page of trades is dumped with a natural total and offset, a limit from 1 to
  -- 1000, and entries of ten fields each: both times are in UTC, the symbol is not empty, the side is
  -- LONG or SHORT, the number of bars is natural, and the other five are decimals.
  pub model_validate-PageOfTrades :
      (P : Pydantic S) (v w : Json) → P.model_validate (shape_of page) v ≡ some w → PageOfTrades w
  unfolding shape_of
  model_validate-PageOfTrades P v w h = Typed-PageOfTrades w (model_validate-Typed S P page v w h)
