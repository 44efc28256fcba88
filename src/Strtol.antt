-- ===== src/Strtol.antt =====
-- `strtol` of the C library, for bases of at most ten, on a 64-bit `long`.
use micro_config_drive.Base.{
  ℕ, ◌+◌, ◌-◌, ◌*◌, ◌%◌, ◌^◌, Bytes, [], ◌∷◌, Bool, true, false, ◌&&◌, ◌||◌, ltb, leb, ◌==◌,
  if◌then◌else◌,
}

-- What it returns: the value by its sign and size, the text behind the number, and whether `errno`
-- was set to `ERANGE`.
pub record Parsed : Type 0 where
  pub negative : Bool
  pub magnitude : ℕ
  pub rest : Bytes
  pub out_of_range : Bool

unfoldable pub is_space : ℕ → Bool
is_space c = c == 32 || (leb 9 c && leb c 13)

unfoldable pub skip_space : Bytes → Bytes
unfolding is_space
skip_space [] = []
skip_space (c ∷ cs) = if is_space c then skip_space cs else c ∷ cs

unfoldable pub is_digit : ℕ → ℕ → Bool
is_digit base c = leb b'0' c && ltb c (b'0' + base)

-- The value of the leading digits, on top of `acc`, and what follows them.
unfoldable pub read_digits : ℕ → ℕ → Bytes → ℕ × Bytes
unfolding is_digit
read_digits base acc [] = (acc, [])
read_digits base acc (c ∷ cs) =
    let more = read_digits base (acc * base + (c - b'0')) cs in
    if is_digit base c then more else (acc, c ∷ cs)

-- The largest size of a value with this sign.
abbrev pub long_limit : Bool → ℕ
long_limit negative = if negative then 2 ^ 63 else 2 ^ 63 - 1

-- With no digit at all, nothing is read and the value is 0.
unfoldable pub read_signed : Bytes → Bool → Bytes → ℕ → Parsed
unfolding read_digits
read_signed text negative [] base = record {
  negative = false;
  magnitude = 0;
  rest = text;
  out_of_range = false;
}
read_signed text negative (c ∷ cs) base =
    let (value, rest) = read_digits base 0 (c ∷ cs) in
    if is_digit base c
    then (if ltb (long_limit negative) value
        then record {
          negative = negative;
          magnitude = long_limit negative;
          rest = rest;
          out_of_range = true;
        }
        else record { negative = negative; magnitude = value; rest = rest; out_of_range = false })
    else record { negative = false; magnitude = 0; rest = text; out_of_range = false }

unfoldable pub read_sign : Bytes → Bytes → ℕ → Parsed
unfolding read_signed
read_sign text [] base = read_signed text false [] base
read_sign text (c ∷ cs) base =
    if c == b'-'
    then read_signed text true cs base
    else if c == b'+'
    then read_signed text false cs base
    else read_signed text false (c ∷ cs) base

unfoldable pub strtol : Bytes → ℕ → Parsed
unfolding read_sign skip_space
strtol text base = read_sign text (skip_space text) base

-- The value as the bits of an integer type of that width.
unfoldable pub to_word : ℕ → Parsed → ℕ
to_word width r =
    if r.negative
    then (2 ^ width - r.magnitude % 2 ^ width) % 2 ^ width
    else r.magnitude % 2 ^ width
