-- ===== src/Fetch/Headers.antt =====
-- `parse_headers` of src/ucd-data-fetch.c.
pub mod Responses
use micro_config_drive.Base.{
  ℕ, zero, suc, ◌+◌, ◌≤◌, ◌<◌, Bytes, str, starts_with, length, drop, Option, none, some, [], ◌∷◌,
  ◌++◌, Bool, true, false, ◌||◌, ltb, leb, if◌then◌else◌, ◌≡◌, refl, arith, inl, inr, Option-cases,
}
use micro_config_drive.Strtol.{Parsed, strtol, to_word}
use micro_config_drive.Fetch.Stream.{Line, fgets, fgets_shorter}

-- The three results: an error, a status that is refused, and success, with the length of the content
-- as far as it was found, and the bytes of the stream that are not read.
pub data Answer : Type 0 where
  error : Answer
  refused : ℕ → Bytes → Answer
  content : ℕ → Bytes → Answer

-- `strtol (&buf[skip], NULL, 10)`. A text that ends before the NUL of the buffer leaves whatever the
-- buffer held.
abbrev pub number_at : ℕ → Bytes → Bytes → Parsed
number_at skip line behind = strtol (if ltb (length line) skip then behind else drop skip line) 10

-- Whether `status < 200 || status >= 299`
unfoldable pub bad_status : Parsed → Bool
bad_status r = if r.negative then true else ltb r.magnitude 200 || leb 299 r.magnitude

-- What a header line says.
pub data Header : Type 0 where
  end_of_headers other : Header
  content_length : Parsed → Header
  status : Parsed → Header

unfoldable pub read_header : Bytes → Bytes → Header
read_header behind line =
    if starts_with line (str "\r\n")
    then end_of_headers
    else if starts_with line (str "Content-Length:")
    then content_length (number_at 16 line behind)
    else if starts_with line (str "HTTP/1.0") || starts_with line (str "HTTP/1.1")
    then status (number_at 8 line behind)
    else other

-- What is done with a header; `next` goes on with the length so far. `erange` is whether `errno` is
-- `EINVAL` or `ERANGE` from before.
unfoldable pub on_header : (ℕ → Option Answer) → Bool → ℕ → Bytes → Header → Option Answer
unfolding bad_status
on_header next erange cl rest end_of_headers = some (content cl rest)
on_header next erange cl rest other = next cl
on_header next erange cl rest (content_length r) =
    let more = next (to_word 64 r) in if erange || r.out_of_range then some error else more
on_header next erange cl rest (status r) =
    let more = next cl in
    if erange || r.out_of_range
    then some error
    else if bad_status r
    then some (refused cl rest)
    else more

-- The loop on fuel; `none` means that the fuel ran out. `behind` is what an unset buffer holds.
unfoldable pub parse_headers : ℕ → Bool → Bytes → Bool → ℕ → Bytes → Option Answer
unfolding read_header on_header
parse_headers zero erange behind broken cl s = none
parse_headers (suc fuel) erange behind broken cl s = elim (fgets 512 broken s) [
  | none ↦ some error
  | some l ↦
      on_header (λ n. parse_headers fuel erange behind broken n l.rest) erange cl l.rest
        (read_header behind l.text)
]

abbrev Ends : Option Answer → Type 0
Ends o = (a : Answer) × (o ≡ some a)

if_Ends : (b : Bool) (a : Answer) (o : Option Answer) → Ends o → Ends (if b then some a else o)
if_Ends true a o h = (a, refl)
if_Ends false a o h = h

on_header-Ends :
    (next : ℕ → Option Answer) (erange : Bool) (cl : ℕ) (rest : Bytes) (header : Header)
    → ((n : ℕ) → Ends (next n))
    → Ends (on_header next erange cl rest header)
unfolding on_header
on_header-Ends next erange cl rest end_of_headers h = (content cl rest, refl)
on_header-Ends next erange cl rest other h = h cl
on_header-Ends next erange cl rest (content_length r) h =
    if_Ends (erange || r.out_of_range) error _ (h (to_word 64 r))
on_header-Ends next erange cl rest (status r) h =
    if_Ends (erange || r.out_of_range) error _ (if_Ends (bad_status r) (refused cl rest) _ (h cl))

-- The loop ends with one of its results on every stream, given fuel for one round more than there are
-- bytes.
pub parse_headers_total :
    (fuel : ℕ) (erange : Bool) (behind : Bytes) (broken : Bool) (cl : ℕ) (s : Bytes)
    → length s < fuel
    → (a : Answer) × (parse_headers fuel erange behind broken cl s ≡ some a)
unfolding parse_headers
parse_headers_total zero erange behind broken cl s h = absurd (omega arith)
parse_headers_total (suc fuel) erange behind broken cl s h =
    elim (Option-cases (fgets 512 broken s)) [
      | inl e ↦ (error, rw (parse_headers, e) refl)
      | inr (l, e) ↦
          let shorter = fgets_shorter 510 broken s l e in
          let (a, ends) =
            on_header-Ends (λ n. parse_headers fuel erange behind broken n l.rest) erange cl l.rest
              (read_header behind l.text)
              (λ n. parse_headers_total fuel erange behind broken n l.rest (omega arith)) in
          (a, rw (parse_headers, e) ends)
    ]
