-- ===== src/Base/Text.antt =====
-- C strings, as the list of their bytes without the closing NUL.
use Prim.Native.Nat.{ℕ, ◌+◌, ◌-◌}
use Prim.Native.Char.{code}
use Prim.Native.String.{String}
use mathlib.Core.Path.{◌≡◌}
use mathlib.Core.Logic.{◌↔◌}
use mathlib.Core.Bool.{Bool, true, false, ◌&&◌}
use mathlib.Core.Option.{Option, none, some}
use mathlib.Core.List.{List, [], ◌∷◌}
use native.Mathlib.Omega.{arith}
use micro_config_drive.Base.Tests.{◌==◌, leb, if◌then◌else◌}
use micro_config_drive.Base.Lists.{take}

abbrev pub Bytes : Type 0
Bytes = List ℕ

-- The bytes of an ASCII literal.
unfoldable pub str : String → Bytes
str String.[] = []
str (String.◌∷◌ c s) = code c ∷ str s

-- `strcmp (a, b) == 0`
unfoldable pub str_eq : Bytes → Bytes → Bool
str_eq [] [] = true
str_eq [] (y ∷ ys) = false
str_eq (x ∷ xs) [] = false
str_eq (x ∷ xs) (y ∷ ys) = x == y && str_eq xs ys

pub str_eq_iff : (a b : Bytes) → (str_eq a b ≡ true) ↔ (a ≡ b)
unfolding str_eq
str_eq_iff [] [] = ground arith
str_eq_iff [] (y ∷ ys) = ground arith
str_eq_iff (x ∷ xs) [] = ground arith
str_eq_iff (x ∷ xs) (y ∷ ys) = ground (arith, str_eq_iff xs ys)

-- `g_strcmp0 (data, b) == 0`, where `data` may be NULL
abbrev pub data_eq : Option Bytes → Bytes → Bool
data_eq none b = false
data_eq (some a) b = str_eq a b

-- `g_str_has_prefix (s, prefix)`, and `strncmp (s, prefix, strlen (prefix)) == 0`
unfoldable pub starts_with : Bytes → Bytes → Bool
starts_with s [] = true
starts_with [] (p ∷ ps) = false
starts_with (x ∷ xs) (p ∷ ps) = x == p && starts_with xs ps

unfoldable pub to_lower : ℕ → ℕ
to_lower c = if leb b'A' c && leb c b'Z' then c + 32 else c

-- `g_ascii_strncasecmp (s, prefix, strlen (prefix)) == 0`
unfoldable pub starts_with_nocase : Bytes → Bytes → Bool
unfolding to_lower
starts_with_nocase s [] = true
starts_with_nocase [] (p ∷ ps) = false
starts_with_nocase (x ∷ xs) (p ∷ ps) = to_lower x == to_lower p && starts_with_nocase xs ps

-- What `%s` prints: the C library writes `(null)` for a null pointer.
unfoldable pub shown : Option Bytes → Bytes
unfolding str
shown none = str "(null)"
shown (some b) = b

-- A buffer of `size` bytes keeps at most `size - 1` of a string and the NUL: `g_snprintf`,
-- `g_strlcpy`, `snprintf`.
unfoldable pub clip : ℕ → Bytes → Bytes
clip size s = take (size - 1) s

-- `LINE_MAX`, `PATH_MAX` and `LOGIN_NAME_MAX` of limits.h
abbrev pub line_max : ℕ
line_max = 2048

abbrev pub path_max : ℕ
path_max = 4096

abbrev pub login_name_max : ℕ
login_name_max = 256
