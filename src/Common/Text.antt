-- ===== src/Common/Text.antt =====
-- Go's strings and the functions of package strings that the program calls. A string is read as
-- its code points, so a byte sequence that is not UTF-8 is left out; `len` counts bytes of UTF-8
-- and `count` counts code points, as in Prim.Native.String.
use go_user_system.Common.Tests.{leb, ◌==◌, if◌then◌else◌}
use Prim.Native.Char.{Char, code}
use Prim.Native.Nat.{ℕ}
use Prim.Native.String.{String, [], ◌∷◌}
use mathlib.Core.Path.{◌≡◌, refl}
use mathlib.Core.Bool.{Bool, ◌&&◌, ◌||◌}
use mathlib.Core.Option.{Option, none, some}
use text.Mathlib.Text.{◌==◌ as str_eq}

-- `unicode.IsSpace`
abbrev is_space : ℕ → Bool
is_space c =
    (leb 9 c && leb c 13)
    || c == 32
    || c == 0x85
    || c == 0xa0
    || c == 0x1680
    || (leb 0x2000 c && leb c 0x200a)
    || c == 0x2028
    || c == 0x2029
    || c == 0x202f
    || c == 0x205f
    || c == 0x3000

trim_left : String → String
trim_left [] = []
trim_left (c ∷ s) = if is_space (code c) then trim_left s else c ∷ s

-- A character before a text that is trimmed at its right end.
abbrev put_before : Char → String → String
put_before c [] = if is_space (code c) then [] else c ∷ []
put_before c (d ∷ s) = c ∷ d ∷ s

trim_right : String → String
trim_right [] = []
trim_right (c ∷ s) = put_before c (trim_right s)

-- `strings.TrimSpace`
unfoldable pub trim_space : String → String
unfolding trim_left trim_right
trim_space s = trim_right (trim_left s)

-- `s == ""`
abbrev pub is_empty : String → Bool
is_empty s = str_eq s ""

-- `strings.TrimSpace(s) == ""`
abbrev pub is_blank : String → Bool
is_blank s = str_eq (trim_space s) ""

-- `strings.HasPrefix` with `strings.TrimPrefix`: what follows the prefix, if the text has it.
unfoldable pub strip_prefix : String → String → Option String
strip_prefix [] s = some s
strip_prefix (p ∷ ps) [] = none
strip_prefix (p ∷ ps) (c ∷ s) = if code p == code c then strip_prefix ps s else none

trim_tests : (trim_space "  ab c\t" ≡ "ab c") × (trim_space "   " ≡ "")
unfolding trim_space
trim_tests = (refl, refl)
