-- ===== src/Fetch/Main/Launch.antt =====
-- When `main` of src/ucd-data-fetch.c starts ucd.
use micro_config_drive.Base.{
  ℕ, suc, Bytes, str, length, Option, none, some, [], ◌∷◌, ◌++◌, false, ◌≡◌, ◌⊎◌, refl, inl, inr,
  Bool-cases,
}
use micro_config_drive.System.{Os, Call, exec, fclose}
use micro_config_drive.System.Io.{World}
use micro_config_drive.System.Views.{Keeps, Keeps-if}
use micro_config_drive.Fetch.Main.Ending.{◌>>=◌, when_fails}
use micro_config_drive.Fetch.{CloudStruct}
use micro_config_drive.Fetch.Headers.{Answer, error, refused, content}
use micro_config_drive.Fetch.Connect.{
  Net, resolve, connect_server, socket_opened, open_socket, reopen,
}
use micro_config_drive.Fetch.Main.{
  is_test, output_path, read_headers, copy_lines, send_request, output_opened, create_output,
  discard, write_keys, keys_answered, fetch_keys, part_answered, fetch_part, fetch_hostname,
  fetch_userdata, start_ucd, fetch,
}
use micro_config_drive.Fetch.Main.Executed.{
  executed, executed-make, executed-bind, executed-seq, executed-pure, executed-exit,
  executed_rules, write_all-executed, EndsBy, EndsBy-bind, EndsBy-seq,
}
use micro_config_drive.Fetch.Main.Executed.Loops.{
  look_up_loop-executed, connect_loop-executed, write_lines-executed,
}

socket_opened-executed : (fd : Option ℕ) → Keeps executed (socket_opened fd)
unfolding socket_opened
socket_opened-executed none = executed-exit
socket_opened-executed (some fd) = executed-pure fd

output_opened-executed : (fd : ℕ) (out : Option ℕ) → Keeps executed (output_opened fd out)
unfolding output_opened
output_opened-executed fd none = search executed_rules depth 8
output_opened-executed fd (some out) = executed-pure out

module _ (net : Net) where
  resolve-executed : (ip : Bytes) → Keeps executed (resolve net ip)
  unfolding resolve
  resolve-executed ip = search (executed_rules, Keeps-if, look_up_loop-executed) depth 12

  connect_server-executed : (ip : Bytes) (fd : ℕ) → Keeps executed (connect_server net ip fd)
  unfolding connect_server
  connect_server-executed ip fd =
      executed-bind _ _ (resolve-executed ip) (connect_loop-executed net fd)

  open_socket-executed : Keeps executed (open_socket net)
  unfolding open_socket
  open_socket-executed = search (executed_rules, socket_opened-executed) depth 10

  reopen-executed : Keeps executed (reopen net)
  unfolding reopen
  reopen-executed = search (executed_rules, open_socket-executed, connect_loop-executed) depth 10

  read_headers-executed : (fd cl : ℕ) → Keeps executed (read_headers net fd cl)
  unfolding read_headers
  read_headers-executed fd cl = record { same = λ w. refl }

  copy_lines-executed :
      (os : Os) (out fd : ℕ) (prefix : Option Bytes) (cl : ℕ) (rest : Bytes)
      → Keeps executed (copy_lines os net out fd prefix cl rest)
  unfolding copy_lines
  copy_lines-executed os out fd prefix cl rest = record {
    same = λ w.
        let broken = net.broken w.trace fd in
        let copied = write_lines-executed (suc (length rest)) os out prefix broken cl rest in
        copied.same w;
  }

-- The call that starts ucd with the file of the user data.
abbrev pub exec_service : Net → CloudStruct → Call
exec_service net c =
    let ucd = net.bindir ++ str "/ucd" in exec ucd (ucd ∷ str "-u" ∷ output_path c ∷ [])

module _ (os : Os) (net : Net) (c : CloudStruct) where
  send_request-executed : (fd : ℕ) (text : Bytes) → Keeps executed (send_request os net fd text)
  unfolding send_request
  send_request-executed fd text = search (executed_rules, write_all-executed) depth 14

  create_output-executed : (fd : ℕ) → Keeps executed (create_output net c fd)
  unfolding create_output
  create_output-executed fd = search (executed_rules, output_opened-executed) depth 14

  discard-executed : (out fd : ℕ) → Keeps executed (discard c out fd)
  unfolding discard
  discard-executed out fd = search executed_rules depth 12

  write_keys-executed : (fd cl : ℕ) (rest : Bytes) → Keeps executed (write_keys os net c fd cl rest)
  unfolding write_keys
  write_keys-executed fd cl rest =
      search
        (
          executed_rules,
          create_output-executed,
          discard-executed,
          copy_lines-executed net,
          write_all-executed,
        )
        depth 18

  keys_answered-executed :
      (fd : ℕ) (answer : Answer) → Keeps executed (keys_answered os net c fd answer)
  unfolding keys_answered
  keys_answered-executed fd error = search executed_rules depth 8
  keys_answered-executed fd (refused cl rest) = search executed_rules depth 8
  keys_answered-executed fd (content cl rest) =
      search (executed_rules, write_keys-executed) depth 10

  fetch_keys-executed : (fd : ℕ) → Keeps executed (fetch_keys os net c fd)
  unfolding fetch_keys
  fetch_keys-executed fd =
      search
        (executed_rules, send_request-executed, read_headers-executed net, keys_answered-executed)
        depth 12

  part_answered-executed :
      (out : ℕ) (prefix : Option Bytes) (fd : ℕ) (answer : Answer)
      → Keeps executed (part_answered os net c out prefix fd answer)
  unfolding part_answered
  part_answered-executed out prefix fd error = search executed_rules depth 10
  part_answered-executed out prefix fd (refused cl rest) = executed-pure cl
  part_answered-executed out prefix fd (content cl rest) =
      search (executed_rules, copy_lines-executed net, discard-executed) depth 12

  fetch_part-executed :
      (out : ℕ) (path : Bytes) (prefix : Option Bytes) (cl fd : ℕ)
      → Keeps executed (fetch_part os net c out path prefix cl fd)
  unfolding fetch_part
  fetch_part-executed out path prefix cl fd =
      search
        (executed_rules, send_request-executed, read_headers-executed net, part_answered-executed)
        depth 12

  fetch_hostname-executed :
      (out cl : ℕ) (path : Option Bytes) (fd : ℕ)
      → Keeps executed (fetch_hostname os net c out cl path fd)
  unfolding fetch_hostname
  fetch_hostname-executed out cl none fd = executed-pure (fd, cl)
  fetch_hostname-executed out cl (some path) fd =
      executed-bind _ _ (fetch_part-executed out path (some (str "hostname: ")) cl fd) (λ cl'.
        executed-seq _ _ (executed-make (fclose fd) (λ t. tt) (λ n. refl))
          (executed-bind _ _ (reopen-executed net) (λ fd'. executed-pure (fd', cl'))))

  fetch_userdata-executed :
      (out cl : ℕ) (path : Option Bytes) (fd : ℕ)
      → Keeps executed (fetch_userdata os net c out cl path fd)
  unfolding fetch_userdata
  fetch_userdata-executed out cl none fd = executed-pure tt
  fetch_userdata-executed out cl (some path) fd =
      search (executed_rules, fetch_part-executed) depth 14

  start_ucd-EndsBy : is_test c ≡ false → EndsBy (exec_service net c) (start_ucd net c)
  unfolding start_ucd ◌>>=◌ when_fails
  start_ucd-EndsBy h = record {
    outcome = λ w. elim (Bool-cases (net.exec_done w.trace (net.bindir ++ str "/ucd"))) [
      | inl e ↦ rw (start_ucd, h, e) (inr (w, refl, refl))
      | inr e ↦ rw (start_ucd, h, e) (inr (w, refl, refl))
    ];
  }

  -- Whatever a service of the table, other than `test`, answers, ucd-data-fetch either ends with a failure and
  -- has executed no other program, or has called `execl` once: for ucd, with the file of the user data, and as
  -- its last call.
  pub fetch-executed :
      (w : World)
      → is_test c ≡ false
      → let (r, v) = fetch os net c w in
        ((r ≡ none) × (executed v ≡ executed w))
        ⊎ ((u : World) × (executed u ≡ executed w)
            × (v ≡ record u { trace = u.trace ++ (exec_service net c ∷ []) }))
  unfolding fetch
  fetch-executed w h =
      let ended : EndsBy (exec_service net c) (fetch os net c) =
        EndsBy-bind _ _ _ (open_socket-executed net) (λ fd.
          EndsBy-seq _ _ _ (connect_server-executed net c.ip fd) (
            EndsBy-bind _ _ _ (fetch_keys-executed fd) (λ (out, cl).
              EndsBy-bind _ _ _ (reopen-executed net) (λ fd'.
                EndsBy-bind _ _ _ (fetch_hostname-executed out cl c.request_hostname_path fd')
                  (λ (fd'', cl').
                    EndsBy-seq _ _ _ (fetch_userdata-executed out cl' c.request_userdata_path fd'')
                      (start_ucd-EndsBy h)))))) in
      ended.outcome w
