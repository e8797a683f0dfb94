-- ===== src/Schemas/Report/Laws.antt =====
-- What validation lets through of a report, a report response, a page of trades and a curve.
use quant_api_gateway.Prelude.{◌≡◌, refl, sym, ◌∙◌, true, some}
use quant_api_gateway.Json.{Json}
use quant_api_gateway.Schemas.{Scalars, Pydantic}
use quant_api_gateway.Schemas.Typed.{fresh, is_well, Typed}
use quant_api_gateway.Schemas.Laws.{read-Typed}
use quant_api_gateway.Schemas.Again.{Typed-again}
use quant_api_gateway.Schemas.Report.{TopClass, report, response, page, curve, shape_of}

shape_of-well : (c : TopClass) → is_well (shape_of c) ≡ true
unfolding shape_of is_well fresh
shape_of-well report = refl
shape_of-well response = refl
shape_of-well page = refl
shape_of-well curve = refl

module _ (S : Scalars) (P : Pydantic S) (c : TopClass) where
  -- What validates as one of the four classes has, at every depth, exactly the fields that its class
  -- declares: decimals, texts and page numbers within their bounds, natural counts, labels among
  -- those allowed, and every timestamp in UTC.
  pub model_validate-Typed :
      (v w : Json) → P.model_validate (shape_of c) v ≡ some w → Typed S (shape_of c) w
  model_validate-Typed v w h =
      read-Typed S (shape_of c) v w (shape_of-well c) (sym (P.reads (shape_of c) v) ∙ h)

  -- The dump of a validated document of the four classes validates, as the same document.
  pub model_validate-again :
      (v w : Json)
      → P.model_validate (shape_of c) v ≡ some w
      → P.model_validate (shape_of c) w ≡ some w
  model_validate-again v w h =
      P.reads (shape_of c) w
      ∙ Typed-again S P (shape_of c) w (shape_of-well c) (model_validate-Typed v w h)
