-- ===== src/Aws.antt =====
-- src/ucd-aws.c, an older program for one cloud service: its headers, and the loops around `connect` in `main`.
pub mod Forever
pub mod Launch
pub mod Program
pub mod Responses
use micro_config_drive.Base.{
  ℕ, zero, suc, ◌+◌, Bytes, str, starts_with, Option, none, some, Bool, true, false, ltb,
  if◌then◌else◌,
}
use micro_config_drive.System.{Call, connect, nanosleep}
use micro_config_drive.System.Io.{Io, ◌>>=◌, ◌>>◌, pure, call}
use micro_config_drive.Fetch.Stream.{Line, fgets}
use micro_config_drive.Fetch.Headers.{
  Answer, error, Header, end_of_headers, other, content_length, status, number_at, on_header,
}
use micro_config_drive.Fetch.Connect.{Net, Connected, connected, retry, refuses, nap}

-- The loop on fuel: `none` means that the fuel ran out; true that there is a connection, and false that
-- the program has exited. The counter `n` is declared inside the loop, so every round starts from 0.
unfoldable pub connect_loop : ℕ → Net → ℕ → Io (Option Bool)
connect_loop zero net fd = pure none
connect_loop (suc fuel) net fd = do
  let n : ℕ = 0
  r ← call (connect fd) (λ t. net.connect_done t fd)
  let more = connect_loop fuel net fd
  elim r [
    | connected ↦ pure (some true)
    | refuses ↦ pure (some false)
    | retry ↦ do call (nanosleep nap) (λ t. tt); if ltb 200 (n + 1) then pure (some false) else more
  ]

unfoldable pub read_line : Bytes → Bytes → Header
read_line behind line =
    if starts_with line (str "\r\n")
    then end_of_headers
    else if starts_with line (str "Content-Length:")
    then content_length (number_at 16 line behind)
    else if starts_with line (str "HTTP/1.0")
    then status (number_at 8 line behind)
    else other

-- The loop on fuel, as that of ucd-data-fetch but for the lines that it knows.
unfoldable pub parse_headers : ℕ → Bool → Bytes → Bool → ℕ → Bytes → Option Answer
unfolding read_line on_header
parse_headers zero erange behind broken cl s = none
parse_headers (suc fuel) erange behind broken cl s = elim (fgets 512 broken s) [
  | none ↦ some error
  | some l ↦
      on_header (λ n. parse_headers fuel erange behind broken n l.rest) erange cl l.rest
        (read_line behind l.text)
]
