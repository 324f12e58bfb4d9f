-- ===== src/Doubles.antt =====
-- What the program asks of `double`: its arithmetic, comparisons and conversions, and its text. They
-- belong to the processor and the C and C++ libraries, so that they are a parameter of what uses them.
use event_driven_trading_sys.Base.{ℕ, Bool, List, Option}

pub record Doubles (Float : Type 0) : Type 0 where
  -- `literal m k` is the literal of value m / 10^k.
  pub literal : ℕ → ℕ → Float
  pub of_nat : ℕ → Float
  pub to_nat : Float → ℕ
  pub add : Float → Float → Float
  pub sub : Float → Float → Float
  pub mul : Float → Float → Float
  pub div : Float → Float → Float
  pub lt : Float → Float → Bool
  pub le : Float → Float → Bool
  -- `<<`, and the text that is left of `%lf` with the value.
  pub print : Float → List ℕ
  pub scan : List ℕ → Option Float
