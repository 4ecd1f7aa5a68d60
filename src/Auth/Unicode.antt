-- ===== src/Auth/Unicode.antt =====
-- What the code uses of Go's packages strings and unicode, whose tables are a parameter.
use Prim.Native.Char.{Char}
use training_ops_scheduling.Base.{String, Bool}

pub record Unicode : Type 0 where
  pub to_lower : String → String
  pub trim_space : String → String
  pub is_upper : Char → Bool
  pub is_lower : Char → Bool
  pub is_digit : Char → Bool
  pub is_punct : Char → Bool
  pub is_symbol : Char → Bool
