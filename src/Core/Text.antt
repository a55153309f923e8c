-- ===== src/Core/Text.antt =====
-- Text literals of the source as lists of bytes, and the string tests that the code uses.
use Prim.Native.Char.{code}
use Prim.Native.String.{String}
use surveillance_hound.Common.{ℕ, ◌==◌, List, [], ◌∷◌, Bool, true, false, ◌&&◌, if◌then◌else◌}

abbrev pub codes : String → List ℕ
codes String.[] = []
codes (String.◌∷◌ c s) = code c ∷ codes s

-- `std::string_view(data)` of a char array: the bytes before the first zero.
unfoldable pub c_string : List ℕ → List ℕ
c_string [] = []
c_string (c ∷ cs) = if c == 0 then [] else c ∷ c_string cs

-- `s.starts_with(prefix)`
unfoldable pub starts_with : List ℕ → List ℕ → Bool
starts_with s [] = true
starts_with [] (p ∷ ps) = false
starts_with (c ∷ cs) (p ∷ ps) = (c == p) && starts_with cs ps
