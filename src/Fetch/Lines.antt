-- ===== src/Fetch/Lines.antt =====
-- `write_lines` of src/ucd-data-fetch.c: the content of a response, line by line, with a prefix.
pub mod Output
use micro_config_drive.Base.{
  ℕ, zero, suc, ◌+◌, ◌-◌, ◌%◌, ◌^◌, Bytes, str, length, Option, none, some, [], ◌∷◌, ◌++◌, Bool,
  true, false, not, ◌==◌, ltb, if◌then◌else◌,
}
use micro_config_drive.System.{Os, Call, write}
use micro_config_drive.System.Io.{World, Io, ◌>>=◌, pure, call}
use micro_config_drive.Fetch.Stream.{Line, fgets}

-- The string that a buffer holds: what stands before the first NUL.
unfoldable pub c_string : Bytes → Bytes
c_string [] = []
c_string (c ∷ cs) = let rest = c_string cs in if c == 0 then [] else c ∷ rest

-- `write (fd, text, strlen (text))`, and whether it wrote all.
unfoldable pub write_all : Os → ℕ → Bytes → Io Bool
write_all os fd text = do
  n ← call (write fd text) (λ t. os.written t fd text)
  elim n [ none ↦ pure false | some k ↦ pure (not (ltb k (length text))) ]

unfoldable pub write_prefix : Os → ℕ → Option Bytes → Io Bool
write_prefix os out none = pure true
write_prefix os out (some prefix) = write_all os out prefix

-- Whether the last byte is a newline. Of an empty string the code reads the byte before the buffer.
unfoldable pub ends_line : Bool → Bytes → Bool
ends_line before [] = before
ends_line before (c ∷ cs) = ends_line (c == b'\n') cs

unfoldable pub end_line : Os → ℕ → Bytes → Io Bool
end_line os out text w =
    if ends_line (os.uninitialised w.trace) text then (true, w) else write_all os out (str "\n") w

-- What is written for a line. Each failure ends the function.
unfoldable pub write_line : Os → ℕ → Option Bytes → Bytes → Io Bool
write_line os out prefix text = do
  began ← write_prefix os out prefix
  if began
      then (do wrote ← write_all os out text; if wrote then end_line os out text else pure false)
      else pure false

-- `cl -= len` on a `size_t`
unfoldable pub less : ℕ → ℕ → ℕ
less cl len = (cl + 2 ^ 64 - len) % 2 ^ 64

-- The loop on fuel, with true for the return value 0; `none` means that the fuel ran out.
unfoldable pub write_lines : ℕ → Os → ℕ → Option Bytes → Bool → ℕ → Bytes → Io (Option Bool)
write_lines zero os out prefix broken cl s w = (none, w)
write_lines (suc fuel) os out prefix broken zero s w = (some true, w)
write_lines (suc fuel) os out prefix broken (suc cl) s w = elim (fgets 2048 broken s) [
  | none ↦ (some (not broken), w)
  | some l ↦
      let text = c_string l.text in
      let (wrote, v) = write_line os out prefix text w in
      elim wrote [
        | false ↦ (some false, v)
        | true ↦ write_lines fuel os out prefix broken (less (suc cl) (length text)) l.rest v
      ]
]
