-- ===== src/Prelude/Text.antt =====
-- The text operations of f-strings and of `str.lower` (on ASCII letters).
use Prim.Native.Char.{Char, code}
use Prim.Native.Nat.{◌-◌}
use Prim.Native.String.{String, char_at, ◌++◌}
use mathlib.Core.Bool.{◌&&◌}
use mathlib.Core.List.{List}
use nofx_cats_py.Prelude.Tests.{leb, if◌then◌else◌}

-- The parts of an f-string, joined.
unfoldable pub concat : List String → String
concat List.[] = ""
concat (List.◌∷◌ s ss) = s ++ concat ss

lower_char : Char → Char
lower_char c =
    if leb 65 (code c) && leb (code c) 90
    then char_at "abcdefghijklmnopqrstuvwxyz" (code c - 65)
    else c

-- `s.lower()`
unfoldable pub lower : String → String
unfolding lower_char
lower String.[] = String.[]
lower (String.◌∷◌ c s) = String.◌∷◌ (lower_char c) (lower s)
