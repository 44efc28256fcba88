-- ===== src/Fetch/Stream.antt =====
-- `fgets` of the C library, on the bytes that a stream still delivers.
use micro_config_drive.Base.{
  ℕ, zero, suc, ◌+◌, ◌-◌, ◌<◌, Bytes, length, Option, none, some, [], ◌∷◌, ◌++◌, Bool, true, false,
  ◌==◌, if◌then◌else◌, ◌≡◌, refl, arith,
}

-- What one reading of at most `n` bytes finds: whether it came to a newline or to the limit before
-- the end of the stream, the bytes, and what is left.
pub record Line : Type 0 where
  pub complete : Bool
  pub text : Bytes
  pub rest : Bytes

abbrev pub longer : ℕ → Line → Line
longer c l = record { complete = l.complete; text = c ∷ l.text; rest = l.rest }

unfoldable pub take_line : ℕ → Bytes → Line
take_line zero s = record { complete = true; text = []; rest = s }
take_line (suc n) [] = record { complete = false; text = []; rest = [] }
take_line (suc n) (c ∷ cs) =
    let more = take_line n cs in
    if c == b'\n' then record { complete = true; text = c ∷ []; rest = cs } else longer c more

-- `fgets (buf, size, f)`: none for NULL. The stream ends with a read error if it is `broken`.
unfoldable pub fgets : ℕ → Bool → Bytes → Option Line
fgets size broken s =
    let l = take_line (size - 1) s in
    if l.complete
    then some l
    else if broken
    then none
    else elim l.text [ [] ↦ none | c ∷ cs ↦ some l ]

take_line_lengths :
    (n : ℕ) (s : Bytes) → length (take_line n s).text + length (take_line n s).rest ≡ length s
unfolding take_line
take_line_lengths zero s = omega arith
take_line_lengths (suc n) [] = omega arith
take_line_lengths (suc n) (c ∷ cs) = ground (arith, take_line_lengths n cs)

take_line_nonempty :
    (n : ℕ) (s : Bytes)
    → (take_line (suc n) s).complete ≡ true
    → 0 < length (take_line (suc n) s).text
unfolding take_line
take_line_nonempty n [] h = ground arith
take_line_nonempty n (c ∷ cs) h = ground arith

-- Every successful reading takes a byte at least.
pub fgets_shorter :
    (n : ℕ) (broken : Bool) (s : Bytes) (l : Line)
    → fgets (suc (suc n)) broken s ≡ some l
    → length l.rest < length s
unfolding fgets
fgets_shorter n broken s l h = ground (arith, take_line_lengths (suc n) s, take_line_nonempty n s)

-- A line's text: no newline and no NUL in it.
abbrev pub IsPlain : Bytes → Type 0
IsPlain [] = Unit
IsPlain (c ∷ cs) = ((c == b'\n') ≡ false) × ((c == 0) ≡ false) × IsPlain cs

take_line-line :
    (n : ℕ) (l rest : Bytes)
    → IsPlain l
    → length l < n
    → take_line n (l ++ (b'\n' ∷ rest))
      ≡ record { complete = true; text = l ++ (b'\n' ∷ []); rest = rest }
unfolding take_line
take_line-line zero l rest p h = absurd (omega arith)
take_line-line (suc n) [] rest p h = refl
take_line-line (suc n) (c ∷ l) rest (p, q, r) h = rw (p, take_line-line n l rest r (omega arith))

-- A line that fits into the buffer is read whole, with its newline.
pub fgets_line :
    (size : ℕ) (broken : Bool) (l rest : Bytes)
    → IsPlain l
    → length l + 1 < size
    → fgets size broken (l ++ (b'\n' ∷ rest))
      ≡ some (record { complete = true; text = l ++ (b'\n' ∷ []); rest = rest })
unfolding fgets
fgets_line size broken l rest p h = rw (take_line-line (size - 1) l rest p (omega arith))
