-- ===== src/Tests/Fetches.antt =====
-- Responses of a server, and a network without one.
use micro_config_drive.Base.{
  ◌+◌, ◌<◌, Bytes, str, starts_with, length, none, some, List, [], ◌∷◌, ◌++◌, Bool, true, false,
  not, ◌&&◌, ◌==◌, ◌≡◌, refl, arith,
}
use micro_config_drive.Strtol.{
  Parsed, strtol, to_word, is_space, skip_space, read_sign, read_signed, read_digits, is_digit,
}
use micro_config_drive.Fetch.Stream.{IsPlain}
use micro_config_drive.Fetch.Headers.{
  content, content_length, read_header, bad_status, parse_headers,
}
use micro_config_drive.Fetch.Headers.Responses.{
  header_lines, FitsLine, passes, parse_headers_response,
}
use micro_config_drive.Fetch.Lines.{write_lines}
use micro_config_drive.Fetch.Lines.Output.{join_lines, line_calls, write_lines_full}
use micro_config_drive.Fetch.Main.{main}
use micro_config_drive.Fetch.Connect.{Net, fails, retry}
use micro_config_drive.Aws.{connect_loop}
use micro_config_drive.Aws.Forever.{connect_loop_forever}
use micro_config_drive.Fetch.Main.Naps.{naps, NapsAtMost}
use micro_config_drive.Fetch.Main.Naps.Requests.{main-NapsAtMost}
use micro_config_drive.Tests.Machine.{machine, start}

-- The test that `IsPlain` stands for.
abbrev is_plain : Bytes → Bool
is_plain [] = true
is_plain (c ∷ cs) = let rest = is_plain cs in not (c == b'\n') && (not (c == 0) && rest)

IsPlain-is_plain : (l : Bytes) → is_plain l ≡ true → IsPlain l
IsPlain-is_plain [] h = tt
IsPlain-is_plain (c ∷ l) h = (ground arith, ground arith, IsPlain-is_plain l (ground arith))

abbrev status_line : Bytes
status_line = str "HTTP/1.1 200 OK\r"

abbrev length_line : Bytes
length_line = str "Content-Length: 8\r"

eight : Parsed
eight = record { negative = false; magnitude = 8; rest = str "\r\n"; out_of_range = false }

status_line-FitsLine : FitsLine status_line
unfolding str
status_line-FitsLine = (IsPlain-is_plain status_line refl, omega arith)

length_line-FitsLine : FitsLine length_line
unfolding str
length_line-FitsLine = (IsPlain-is_plain length_line refl, omega arith)

status_line-passes : passes (read_header [] (status_line ++ (b'\n' ∷ []))) ≡ true
unfolding str read_header starts_with bad_status strtol skip_space is_space read_sign read_signed
    read_digits is_digit
status_line-passes = refl

length_line-eight : read_header [] (length_line ++ (b'\n' ∷ [])) ≡ content_length eight
unfolding str read_header starts_with eight strtol skip_space is_space read_sign read_signed
    read_digits is_digit
length_line-eight = refl

eight_in_range : eight.out_of_range ≡ false
unfolding eight
eight_in_range = refl

parse_headers_response_example :
    parse_headers 10 false [] false 0 (
      header_lines
        (status_line ∷ [])
        (length_line ++ (b'\n' ∷ header_lines [] (str "\r\n" ++ str "ssh-rsa\n"))))
    ≡ some (content (to_word 64 eight) (str "ssh-rsa\n"))
parse_headers_response_example =
    parse_headers_response [] false 0 (status_line ∷ []) length_line eight [] (str "ssh-rsa\n") 10
      (status_line-FitsLine, status_line-passes, tt) length_line-FitsLine length_line-eight
      eight_in_range tt (omega arith)

abbrev keys : List Bytes
keys = str "ssh-rsa A" ∷ (str "ssh-rsa B" ∷ [])

keys-length : length (join_lines keys) ≡ 20
unfolding str
keys-length = refl

key-IsPlain : IsPlain (str "ssh-rsa A") × (length (str "ssh-rsa A") + 1 < 2048)
unfolding str
key-IsPlain = (IsPlain-is_plain (str "ssh-rsa A") refl, omega arith)

other_key-IsPlain : IsPlain (str "ssh-rsa B") × (length (str "ssh-rsa B") + 1 < 2048)
unfolding str
other_key-IsPlain = (IsPlain-is_plain (str "ssh-rsa B") refl, omega arith)

write_lines_full_example :
    write_lines 5 machine 4 (some (str "  - ")) false 20 (join_lines keys ++ str "HTTP") start
    ≡ (some true, record start { trace = [] ++ line_calls 4 (some (str "  - ")) keys })
write_lines_full_example =
    write_lines_full machine (λ t fd text. refl) 5 4 (some (str "  - ")) false 20 keys (str "HTTP")
      start (key-IsPlain.0, key-IsPlain.1, (other_key-IsPlain.0, other_key-IsPlain.1, tt))
      keys-length (omega arith) (omega arith)

abbrev offline : Net
offline = record {
  bindir = str "/usr/bin";
  is_address = λ ip. true;
  socket_fd = λ t. some 3;
  looked_up = λ t ip. fails;
  connect_done = λ t fd. retry;
  fdopen_done = λ t fd. true;
  response = λ t fd. [];
  broken = λ t fd. false;
  errno_is_set = λ t. false;
  unset_buffer = λ t. [];
  unset_length = 0;
  open_new_fd = λ t p. some 4;
  exec_done = λ t p. true;
}

main-NapsAtMost_example : NapsAtMost 2803 (main machine offline (str "aws"))
main-NapsAtMost_example = main-NapsAtMost machine offline (str "aws")

-- With `offline` every connection is to be tried again.
connect_loop_forever_example :
    let (r, v) = connect_loop 1000 offline 3 start in
    (r ≡ none) × (naps v.trace ≡ naps start.trace + 1000)
connect_loop_forever_example = connect_loop_forever 1000 offline 3 start (λ t. refl)
