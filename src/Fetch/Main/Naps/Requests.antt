-- ===== src/Fetch/Main/Naps/Requests.antt =====
-- How often `main` sleeps: it never waits for a service without end.
use micro_config_drive.Base.{
  ℕ, zero, suc, Bytes, str, length, Option, none, some, [], ◌∷◌, Bool, arith, inl, inr,
  Option-cases,
}
use micro_config_drive.System.{Os, write}
use micro_config_drive.Fetch.{CloudStruct, config, find_config}
use micro_config_drive.Fetch.Stream.{fgets}
use micro_config_drive.Fetch.Headers.{Answer, error, refused, content}
use micro_config_drive.Fetch.Lines.{
  c_string, write_all, write_prefix, end_line, write_line, less, write_lines,
}
use micro_config_drive.Fetch.Main.{
  output_opened, keys_answered, part_answered, read_headers, copy_lines, send_request,
  create_output, discard, is_test, write_keys, fetch_keys, fetch_part, fetch_hostname,
  fetch_userdata, start_ucd, fetch, main,
}
use micro_config_drive.Fetch.Connect.{Net}
use micro_config_drive.Fetch.Main.Ending.{exit_failure}
use micro_config_drive.Fetch.Main.Naps.{
  naps, naps-append, NapsAtMost, NapsAtMost-pure, NapsAtMost-exit, NapsAtMost-make, NapsAtMost-more,
  NapsAtMost-bind, NapsAtMost-seq, NapsAtMost-if, nap_rules,
}
use micro_config_drive.Fetch.Main.Naps.Loops.{connect_server-naps, reopen-naps, open_socket-naps}

write_all-naps : (os : Os) (fd : ℕ) (text : Bytes) → NapsAtMost 0 (write_all os fd text)
unfolding write_all naps
write_all-naps os fd text = record {
  bound = λ w. ground (arith, naps-append w.trace (write fd text ∷ []));
}

write_line-naps :
    (os : Os) (out : ℕ) (prefix : Option Bytes) (text : Bytes)
    → NapsAtMost 0 (write_line os out prefix text)
unfolding write_line write_prefix end_line
write_line-naps os out none text = record {
  bound = λ w.
      let first = (write_all-naps os out text).bound w in
      let v = (write_all os out text w).1 in
      ground (arith, (write_all-naps os out (str "\n")).bound v);
}
write_line-naps os out (some p) text = record {
  bound = λ w.
      let first = (write_all-naps os out p).bound w in
      let u = (write_all os out p w).1 in
      let second = (write_all-naps os out text).bound u in
      let v = (write_all os out text u).1 in
      ground (arith, (write_all-naps os out (str "\n")).bound v);
}

write_lines-naps :
    (fuel : ℕ) (os : Os) (out : ℕ) (prefix : Option Bytes) (broken : Bool) (cl : ℕ) (s : Bytes)
    → NapsAtMost 0 (write_lines fuel os out prefix broken cl s)
unfolding write_lines
write_lines-naps zero os out prefix broken cl s = record { bound = λ w. omega arith }
write_lines-naps (suc fuel) os out prefix broken zero s = record { bound = λ w. omega arith }
write_lines-naps (suc fuel) os out prefix broken (suc cl) s = record {
  bound = λ w. elim (Option-cases (fgets 2048 broken s)) [
    | inl e ↦ rw (write_lines, e) (omega arith)
    | inr (l, e) ↦
        let text = c_string l.text in
        let v = (write_line os out prefix text w).1 in
        let first = (write_line-naps os out prefix text).bound w in
        let more =
          (write_lines-naps fuel os out prefix broken (less (suc cl) (length text)) l.rest).bound
            v in
        rw (write_lines, e) (ground arith)
  ];
}

copy_lines-naps :
    (os : Os) (net : Net) (out fd : ℕ) (prefix : Option Bytes) (cl : ℕ) (rest : Bytes)
    → NapsAtMost 0 (copy_lines os net out fd prefix cl rest)
unfolding copy_lines
copy_lines-naps os net out fd prefix cl rest = record {
  bound = λ w.
      (write_lines-naps (suc (length rest)) os out prefix (net.broken w.trace fd) cl rest).bound w;
}

read_headers-naps : (net : Net) (fd cl : ℕ) → NapsAtMost 0 (read_headers net fd cl)
unfolding read_headers
read_headers-naps net fd cl = record { bound = λ w. omega arith }

ruleset request_rules = (nap_rules, write_all-naps, copy_lines-naps, read_headers-naps)

send_request-naps :
    (os : Os) (net : Net) (fd : ℕ) (request : Bytes) → NapsAtMost 0 (send_request os net fd request)
unfolding send_request naps
send_request-naps os net fd request = search request_rules

output_opened-naps : (fd : ℕ) (out : Option ℕ) → NapsAtMost 0 (output_opened fd out)
unfolding output_opened naps
output_opened-naps fd none = search request_rules
output_opened-naps fd (some out) = NapsAtMost-pure out

create_output-naps : (net : Net) (c : CloudStruct) (fd : ℕ) → NapsAtMost 0 (create_output net c fd)
unfolding create_output naps
create_output-naps net c fd = search (request_rules, output_opened-naps)

discard-naps : (c : CloudStruct) (out fd : ℕ) → NapsAtMost 0 (discard c out fd)
unfolding discard naps
discard-naps c out fd = search request_rules

write_keys-naps :
    (os : Os) (net : Net) (c : CloudStruct) (fd cl : ℕ) (rest : Bytes)
    → NapsAtMost 0 (write_keys os net c fd cl rest)
unfolding write_keys naps
write_keys-naps os net c fd cl rest =
    search (request_rules, create_output-naps, discard-naps) depth 12

keys_answered-naps :
    (os : Os) (net : Net) (c : CloudStruct) (fd : ℕ) (a : Answer)
    → NapsAtMost 0 (keys_answered os net c fd a)
unfolding keys_answered naps
keys_answered-naps os net c fd error = search request_rules
keys_answered-naps os net c fd (refused cl rest) = search request_rules
keys_answered-naps os net c fd (content cl rest) = search (request_rules, write_keys-naps)

fetch_keys-naps :
    (os : Os) (net : Net) (c : CloudStruct) (fd : ℕ) → NapsAtMost 0 (fetch_keys os net c fd)
unfolding fetch_keys
fetch_keys-naps os net c fd = search (request_rules, send_request-naps, keys_answered-naps)

part_answered-naps :
    (os : Os) (net : Net) (c : CloudStruct) (out : ℕ) (prefix : Option Bytes) (fd : ℕ) (a : Answer)
    → NapsAtMost 0 (part_answered os net c out prefix fd a)
unfolding part_answered naps
part_answered-naps os net c out prefix fd error = search request_rules
part_answered-naps os net c out prefix fd (refused cl rest) = NapsAtMost-pure cl
part_answered-naps os net c out prefix fd (content cl rest) = search (request_rules, discard-naps)

fetch_part-naps :
    (os : Os) (net : Net) (c : CloudStruct) (out : ℕ) (path : Bytes) (prefix : Option Bytes)
    (cl fd : ℕ)
    → NapsAtMost 0 (fetch_part os net c out path prefix cl fd)
unfolding fetch_part
fetch_part-naps os net c out path prefix cl fd =
    search (request_rules, send_request-naps, part_answered-naps)

fetch_hostname-naps :
    (os : Os) (net : Net) (c : CloudStruct) (out cl : ℕ) (path : Option Bytes) (fd : ℕ)
    → NapsAtMost 201 (fetch_hostname os net c out cl path fd)
unfolding fetch_hostname naps
fetch_hostname-naps os net c out cl none fd =
    NapsAtMost-more (NapsAtMost-pure (fd, cl)) (omega arith)
fetch_hostname-naps os net c out cl (some path) fd =
    NapsAtMost-bind {j = 0} {k = 201} (fetch_part-naps os net c out path _ cl fd) (λ cl'.
      NapsAtMost-seq {j = 0} {k = 201} (NapsAtMost-make _ _)
        (NapsAtMost-bind {j = 201} {k = 0} (reopen-naps net) (λ fd'. NapsAtMost-pure (fd', cl'))))

fetch_userdata-naps :
    (os : Os) (net : Net) (c : CloudStruct) (out cl : ℕ) (path : Option Bytes) (fd : ℕ)
    → NapsAtMost 0 (fetch_userdata os net c out cl path fd)
unfolding fetch_userdata naps
fetch_userdata-naps os net c out cl none fd = NapsAtMost-pure tt
fetch_userdata-naps os net c out cl (some path) fd = search (request_rules, fetch_part-naps)

start_ucd-naps : (net : Net) (c : CloudStruct) → NapsAtMost 0 (start_ucd net c)
unfolding start_ucd naps
start_ucd-naps net c = NapsAtMost-if (is_test c) (NapsAtMost-pure tt) (search request_rules)

fetch-naps : (os : Os) (net : Net) (c : CloudStruct) → NapsAtMost 2803 (fetch os net c)
unfolding fetch
fetch-naps os net c = NapsAtMost-bind {j = 0} {k = 2803} (open_socket-naps net) (λ fd.
    NapsAtMost-seq {j = 2401} {k = 402} (connect_server-naps net c.ip fd) (
      NapsAtMost-bind {j = 0} {k = 402} (fetch_keys-naps os net c fd) (λ keys.
        NapsAtMost-bind {j = 201} {k = 201} (reopen-naps net) (λ fd'.
          NapsAtMost-bind {j = 201} {k = 0}
            (fetch_hostname-naps os net c keys.0 keys.1 c.request_hostname_path fd')
            (λ part.
              NapsAtMost-seq {j = 0} {k = 0}
                (fetch_userdata-naps os net c keys.0 part.1 c.request_userdata_path part.0)
                (start_ucd-naps net c))))))

-- Whatever the name service and the server answer, and whatever they send, `main` calls `nanosleep` at most 2803
-- times.
pub main-NapsAtMost :
    (os : Os) (net : Net) (service : Bytes) → NapsAtMost 2803 (main os net service)
unfolding main
main-NapsAtMost os net service =
    elim (find_config service config)
      as (λ o. NapsAtMost 2803 (elim o [ none ↦ exit_failure | some c ↦ fetch os net c ])) [
        | none ↦ NapsAtMost-more NapsAtMost-exit (omega arith)
        | some c ↦ fetch-naps os net c
      ]
