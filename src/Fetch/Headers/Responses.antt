-- ===== src/Fetch/Headers/Responses.antt =====
-- What `parse_headers` makes of a response: its status, its headers and its content.
use micro_config_drive.Base.{
  ℕ, zero, suc, ◌+◌, ◌≤◌, ◌<◌, Bytes, str, starts_with, length, Option, some, List, [], ◌∷◌, ◌++◌,
  Bool, true, false, not, ◌&&◌, ◌≡◌, refl, ◌∙◌, arith,
}
use micro_config_drive.Strtol.{Parsed, to_word}
use micro_config_drive.Fetch.Stream.{IsPlain, fgets_line}
use micro_config_drive.Fetch.Headers.{
  Answer, content, Header, end_of_headers, other, content_length, status, bad_status, read_header,
  on_header, parse_headers,
}

-- Lines in front of what follows them.
abbrev pub header_lines : List Bytes → Bytes → Bytes
header_lines [] s = s
header_lines (l ∷ ls) s = l ++ (b'\n' ∷ header_lines ls s)

-- A header that the parser passes over: a status in the accepted range, or a header that it does not
-- know.
abbrev pub passes : Header → Bool
passes end_of_headers = false
passes other = true
passes (content_length r) = false
passes (status r) = not r.out_of_range && not (bad_status r)

abbrev pub FitsLine : Bytes → Type 0
FitsLine l = IsPlain l × (length l + 1 < 512)

abbrev pub AllPass : Bytes → List Bytes → Type 0
AllPass behind [] = Unit
AllPass behind (l ∷ ls) =
    FitsLine l × (passes (read_header behind (l ++ (b'\n' ∷ []))) ≡ true) × AllPass behind ls

on_header-passes :
    (next : ℕ → Option Answer) (cl : ℕ) (rest : Bytes) (header : Header)
    → passes header ≡ true
    → on_header next false cl rest header ≡ next cl
unfolding on_header
on_header-passes next cl rest end_of_headers h = absurd (ground arith)
on_header-passes next cl rest other h = refl
on_header-passes next cl rest (content_length r) h = absurd (ground arith)
on_header-passes next cl rest (status r) h = ground arith

module _ (behind : Bytes) (broken : Bool) where
  -- Whatever fuel of at least `m` is left, the parser comes from `s` to the answer.
  abbrev Answers : ℕ → Bytes → Answer → ℕ → Type 0
  Answers cl s a m = (g : ℕ) → m ≤ g → parse_headers g false behind broken cl s ≡ some a

  pass_lines :
      (ls : List Bytes) (cl : ℕ) (s : Bytes) (a : Answer) (m : ℕ)
      → AllPass behind ls
      → Answers cl s a m
      → Answers cl (header_lines ls s) a (length ls + m)
  unfolding parse_headers
  pass_lines [] cl s a m p k g h = k g (omega arith)
  pass_lines (l ∷ ls) cl s a m p k zero h = absurd (omega arith)
  pass_lines (l ∷ ls) cl s a m ((plain, fits), passed, p) k (suc g) h =
      rw (parse_headers, fgets_line 512 broken l (header_lines ls s) plain fits)
        (on_header-passes (λ n. parse_headers g false behind broken n (header_lines ls s)) cl
            (header_lines ls s) (read_header behind (l ++ (b'\n' ∷ []))) passed
          ∙ pass_lines ls cl s a m p k g (omega arith))

  blank_line : (cl : ℕ) (body : Bytes) → Answers cl (str "\r\n" ++ body) (content cl body) 1
  unfolding str parse_headers read_header on_header starts_with
  blank_line cl body zero h = absurd (omega arith)
  blank_line cl body (suc g) h =
      rw (parse_headers, fgets_line 512 broken (b'\r' ∷ []) body (refl, refl, tt) (omega arith))
        refl

  length_line :
      (l : Bytes) (r : Parsed) (cl : ℕ) (s : Bytes) (a : Answer) (m : ℕ)
      → FitsLine l
      → read_header behind (l ++ (b'\n' ∷ [])) ≡ content_length r
      → r.out_of_range ≡ false
      → Answers (to_word 64 r) s a m
      → Answers cl (l ++ (b'\n' ∷ s)) a (suc m)
  unfolding parse_headers to_word
  length_line l r cl s a m fits e f k zero h = absurd (omega arith)
  length_line l r cl s a m (plain, fits) e f k (suc g) h =
      rw (parse_headers, fgets_line 512 broken l s plain fits)
        (rw (e, on_header) (rw f (k g (omega arith))))

-- A response of accepted status whose headers have one length, in any place, and fit into the buffer:
-- the parser finds that length, as the 64 bits of a `size_t`, and leaves exactly the content unread.
-- `errno` was clear before, and there is fuel for each line.
pub parse_headers_response :
    (behind : Bytes) (broken : Bool) (cl : ℕ) (before : List Bytes) (l : Bytes) (r : Parsed)
    (after : List Bytes) (body : Bytes) (fuel : ℕ)
    → AllPass behind before
    → FitsLine l
    → read_header behind (l ++ (b'\n' ∷ [])) ≡ content_length r
    → r.out_of_range ≡ false
    → AllPass behind after
    → length before + (length after + 2) ≤ fuel
    → parse_headers fuel false behind broken cl
        (header_lines before (l ++ (b'\n' ∷ header_lines after (str "\r\n" ++ body))))
      ≡ some (content (to_word 64 r) body)
parse_headers_response behind broken cl before l r after body fuel p fits e f q h =
    let n = to_word 64 r in
    let a = content n body in
    let blank = str "\r\n" ++ body in
    let s = header_lines after blank in
    pass_lines behind broken before cl (l ++ (b'\n' ∷ s)) a (suc (length after + 1)) p
      (length_line behind broken l r cl s a (length after + 1) fits e f
        (pass_lines behind broken after n blank a 1 q (blank_line behind broken n body)))
      fuel (omega arith)
