-- ===== src/Aws/Responses.antt =====
-- How the header parser of src/ucd-aws.c differs from that of src/ucd-data-fetch.c.
use mathlib.Core.Path.{fun_ext}
use micro_config_drive.Base.{
  ℕ, zero, suc, Bytes, str, starts_with, Option, none, some, [], ◌∷◌, Bool, true, false, ◌≡◌, refl,
  ap, arith, inl, inr, Option-cases,
}
use micro_config_drive.Fetch.Stream.{Line, fgets}
use micro_config_drive.Fetch.Headers.{Answer, error, Header, other, read_header, on_header}
use micro_config_drive.Fetch.Headers
use micro_config_drive.Aws.{read_line}
use micro_config_drive.Aws

-- None of the lines that the loop may read begins with `HTTP/1.1`.
abbrev pub NoneIsNew : ℕ → Bool → Bytes → Type 0
NoneIsNew zero broken s = Unit {0}
NoneIsNew (suc fuel) broken s = elim (fgets 512 broken s) [
  | none ↦ Unit {0}
  | some l ↦ (starts_with l.text (str "HTTP/1.1") ≡ false) × NoneIsNew fuel broken l.rest
]

read_line-read_header :
    (behind line : Bytes)
    → starts_with line (str "HTTP/1.1") ≡ false
    → read_line behind line ≡ read_header behind line
unfolding read_line read_header
read_line-read_header behind line e = simp e (ground arith)

on_header_next :
    (f g : ℕ → Option Answer) (erange : Bool) (cl : ℕ) (rest : Bytes) (header : Header)
    → ((n : ℕ) → f n ≡ g n)
    → on_header f erange cl rest header ≡ on_header g erange cl rest header
on_header_next f g erange cl rest header h =
    ap (λ (k : ℕ → Option Answer). on_header k erange cl rest header) (fun_ext h)

-- On a response without a line that begins with `HTTP/1.1` the two header parsers give the same answer.
pub parse_headers_same :
    (fuel : ℕ) (erange : Bool) (behind : Bytes) (broken : Bool) (cl : ℕ) (s : Bytes)
    → NoneIsNew fuel broken s
    → Aws.parse_headers fuel erange behind broken cl s
      ≡ Headers.parse_headers fuel erange behind broken cl s
unfolding Aws.parse_headers Headers.parse_headers
parse_headers_same zero erange behind broken cl s h = refl
parse_headers_same (suc fuel) erange behind broken cl s h =
    elim (Option-cases (fgets 512 broken s)) [
      | inl e ↦ rw (Aws.parse_headers, e) (rw (Headers.parse_headers, e) refl)
      | inr (l, e) ↦
          let (old, rest) = rw (NoneIsNew, e) at h in
          rw (Aws.parse_headers, e)
            (rw (Headers.parse_headers, e)
              (rw (read_line-read_header behind l.text old) (
                on_header_next _ _ erange cl l.rest (read_header behind l.text)
                  (λ n. parse_headers_same fuel erange behind broken n l.rest rest))))
    ]

begins_new :
    (line : Bytes)
    → starts_with line (str "HTTP/1.1") ≡ true
    → (starts_with line (str "\r\n") ≡ false)
      × (starts_with line (str "Content-Length:") ≡ false)
      × (starts_with line (str "HTTP/1.0") ≡ false)
unfolding starts_with str
begins_new [] h = cc
begins_new (a ∷ []) h = ground arith
begins_new (a ∷ b ∷ []) h = ground arith
begins_new (a ∷ b ∷ c ∷ []) h = ground arith
begins_new (a ∷ b ∷ c ∷ d ∷ []) h = ground arith
begins_new (a ∷ b ∷ c ∷ d ∷ e ∷ []) h = ground arith
begins_new (a ∷ b ∷ c ∷ d ∷ e ∷ f ∷ []) h = ground arith
begins_new (a ∷ b ∷ c ∷ d ∷ e ∷ f ∷ g ∷ []) h = ground arith
begins_new (a ∷ b ∷ c ∷ d ∷ e ∷ f ∷ g ∷ i ∷ rest) h = ground arith

read_line_new :
    (behind line : Bytes) → starts_with line (str "HTTP/1.1") ≡ true → read_line behind line ≡ other
unfolding read_line
read_line_new behind line h =
    let (end, length, old) = begins_new line h in simp (end, length, old) refl

-- A response of HTTP 1.1 with a status that ucd-data-fetch refuses: ucd-aws does not read the status, and
-- goes on with the next line.
pub parse_headers_skips_status :
    (fuel : ℕ) (erange : Bool) (behind : Bytes) (broken : Bool) (cl : ℕ) (s : Bytes) (l : Line)
    → fgets 512 broken s ≡ some l
    → starts_with l.text (str "HTTP/1.1") ≡ true
    → Aws.parse_headers (suc fuel) erange behind broken cl s
      ≡ Aws.parse_headers fuel erange behind broken cl l.rest
unfolding Aws.parse_headers on_header
parse_headers_skips_status fuel erange behind broken cl s l e new =
    rw (Aws.parse_headers, e) (rw (read_line_new behind l.text new) refl)
