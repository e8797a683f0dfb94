-- ===== src/Prelude/Errors.antt =====
-- How a call ends that may raise: with its value, or with an exception of the given type.
pub data Result (E A : Type 0) : Type 0 where
  ok : A → Result E A
  err : E → Result E A
