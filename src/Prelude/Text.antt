-- ===== src/Prelude/Text.antt =====
-- Python's `str`: tests by the native strings, walks by the list of code points.
use Prim.Native.Nat.{ℕ}
use Prim.Native.Char.{Char, code}
use Prim.Native.String.{String}
use mathlib.Core.Path.{◌≡◌}
use mathlib.Core.Logic.{◌≢◌}
use mathlib.Core.Bool.{Bool, true, false, ◌&&◌, ◌||◌}
use mathlib.Core.List.{List, [], ◌∷◌}
use mathlib.Core.Option.{Option, none, some}
use dukan_pro.Prelude.Tests.{leb, ◌==◌, if◌then◌else◌}
use dukan_pro.Prelude.Lists.{all}
pub use text.Mathlib.Text.{◌==◌ as str_eq}
pub use text.Mathlib.TextEquality.{eq_iff}
pub use text.Mathlib.TextPositions.{eq_refl}

-- The code points of a text.
abbrev pub codes : String → List ℕ
codes String.[] = []
codes (String.◌∷◌ c s) = code c ∷ codes s

-- `s in {…}`
abbrev pub str_mem : String → List String → Bool
str_mem s [] = false
str_mem s (t ∷ ts) = str_eq s t || str_mem s ts

pub str_eq→eq : (s t : String) → str_eq s t ≡ true → s ≡ t
str_eq→eq s t h = (eq_iff s t).0 h

pub not_equal : (s t : String) → str_eq s t ≡ false → s ≢ t
not_equal s t h e = (let same = (eq_iff s t).1 e in cc)

-- `str.isspace` of one code point.
unfoldable pub is_space : ℕ → Bool
is_space c =
    (leb 9 c && leb c 13)
    || (leb 28 c && leb c 32)
    || (c == 0x85)
    || (c == 0xa0)
    || (c == 0x1680)
    || (leb 0x2000 c && leb c 0x200a)
    || (leb 0x2028 c && leb c 0x2029)
    || (c == 0x202f)
    || (c == 0x205f)
    || (c == 0x3000)

-- `not s.strip()`
unfoldable pub is_blank : String → Bool
unfolding is_space
is_blank s = all is_space (codes s)

unfoldable pub strip_start : String → String
strip_start String.[] = String.[]
strip_start (String.◌∷◌ c s) = if is_space (code c) then strip_start s else String.◌∷◌ c s

abbrev keep_end : Bool → Char → String → String
keep_end true c String.[] = String.[]
keep_end true c (String.◌∷◌ d s) = String.◌∷◌ c (String.◌∷◌ d s)
keep_end false c s = String.◌∷◌ c s

unfoldable pub strip_end : String → String
strip_end String.[] = String.[]
strip_end (String.◌∷◌ c s) = keep_end (is_space (code c)) c (strip_end s)

-- `s.strip()`
unfoldable pub strip : String → String
strip s = strip_end (strip_start s)

-- `o == t` for an optional text.
abbrev pub is_text : Option String → String → Bool
is_text none t = false
is_text (some s) t = str_eq s t

-- `o == p` for two of them.
abbrev pub opt_eq : Option String → Option String → Bool
opt_eq none none = true
opt_eq none (some t) = false
opt_eq (some s) none = false
opt_eq (some s) (some t) = str_eq s t
