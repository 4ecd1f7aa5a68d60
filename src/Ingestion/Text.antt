-- ===== src/Ingestion/Text.antt =====
-- strings.Contains of Go's standard library.
use training_ops_scheduling.Base.{String, Bool, true, false, ◌&&◌, ◌||◌, ◌==◌}
use Prim.Native.Char.{code}

unfoldable pub has_prefix : String → String → Bool
has_prefix s String.[] = true
has_prefix String.[] (String.◌∷◌ c p) = false
has_prefix (String.◌∷◌ d s) (String.◌∷◌ c p) = code d == code c && has_prefix s p

-- `strings.Contains(s, p)`
unfoldable pub contains_text : String → String → Bool
unfolding has_prefix
contains_text String.[] p = has_prefix String.[] p
contains_text (String.◌∷◌ d s) p = has_prefix (String.◌∷◌ d s) p || contains_text s p
