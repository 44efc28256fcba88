-- ===== src/Aws/Launch.antt =====
-- When `main` of src/ucd-aws.c starts ucd.
use micro_config_drive.Base.{
  ℕ, zero, suc, Bytes, str, length, Option, none, some, [], ◌∷◌, ◌++◌, Bool, true, false, ltb, ◌≡◌,
  ◌⊎◌, refl, ◌∙◌, inl, inr, Option-cases, Bool-cases,
}
use micro_config_drive.System.{Os, Call, exec, connect, nanosleep}
use micro_config_drive.System.Io.{World, Io}
use micro_config_drive.System.Io
use micro_config_drive.System.Views.{Keeps, Keeps-pure, Keeps-bind, Keeps-seq, Keeps-if}
use micro_config_drive.Fetch.Stream.{fgets}
use micro_config_drive.Fetch.Headers.{Answer, error, refused, content}
use micro_config_drive.Fetch.Lines.{c_string, write_all, less}
use micro_config_drive.Fetch.Connect.{Net, Connected, connected, retry, refuses, nap}
use micro_config_drive.Fetch.Main.Ending.{◌>>=◌, when_fails}
use micro_config_drive.Aws.{connect_loop}
use micro_config_drive.Aws.Program.{
  is_connected, connect_socket, opened_socket, request, headers, copy_key, copy_all, give_up,
  opened_output, new_output, key_answered, userdata_answered, start_program, main, aws_user_data,
}
use micro_config_drive.Fetch.Main.Executed.{
  executed, executed-call, executed-bind, executed-pure, executed-exit, executed_rules,
  write_all-executed, EndsBy, EndsBy-bind, EndsBy-seq,
}

answered-executed :
    (r : Connected) (more : Io (Option Bool))
    → Keeps executed more
    → Keeps executed (elim r as (λ _. Io (Option Bool)) [
      | connected ↦ Io.pure (some true)
      | refuses ↦ Io.pure (some false)
      | retry ↦ more
    ])
answered-executed connected more p = Keeps-pure (some true)
answered-executed refuses more p = Keeps-pure (some false)
answered-executed retry more p = p

connect_loop-executed : (fuel : ℕ) (net : Net) (fd : ℕ) → Keeps executed (connect_loop fuel net fd)
unfolding connect_loop
connect_loop-executed zero net fd = Keeps-pure none
connect_loop-executed (suc fuel) net fd =
    Keeps-bind _ _ (executed-call (connect fd) (λ t. net.connect_done t fd) (λ n. refl)) (λ r.
      answered-executed r _ (
        Keeps-seq (executed-call (nanosleep nap) (λ t. tt) (λ n. refl))
          (Keeps-if (ltb 200 1) _ _ (Keeps-pure (some false)) (connect_loop-executed fuel net fd))))

-- What a copying loop does with a line: it writes it, and goes on where that has succeeded.
wrote-executed :
    (os : Os) (out : ℕ) (text : Bytes) (more : Io Bool) (w : World)
    → Keeps executed more
    → let (wrote, v) = write_all os out text w in
      executed ((elim wrote as (λ _. Bool × World) [ false ↦ (false, v) | true ↦ more v ]).1)
      ≡ executed w
wrote-executed os out text more w p =
    let (wrote, v) = write_all os out text w in
    let same = (write_all-executed os out text).same w in
    elim wrote
      as (λ wrote.
        executed ((elim wrote as (λ _. Bool × World) [ false ↦ (false, v) | true ↦ more v ]).1)
        ≡ executed w) [ false ↦ same | true ↦ p.same v ∙ same ]

copy_key-executed :
    (fuel : ℕ) (os : Os) (out : ℕ) (broken : Bool) (cl : ℕ) (s : Bytes)
    → Keeps executed (copy_key fuel os out broken cl s)
unfolding copy_key
copy_key-executed zero os out broken cl s = record { same = λ w. refl }
copy_key-executed (suc fuel) os out broken zero s = record { same = λ w. refl }
copy_key-executed (suc fuel) os out broken (suc cl) s = record {
  same = λ w. elim (Option-cases (fgets 512 broken s)) [
    | inl e ↦ rw (e, copy_key) refl
    | inr (l, e) ↦
        rw (e, copy_key)
          (wrote-executed os out (c_string l.text) _ w (
            copy_key-executed fuel os out broken (less (suc cl) (length (c_string l.text))) l.rest))
  ];
}

copy_all-executed :
    (fuel : ℕ) (os : Os) (out : ℕ) (broken : Bool) (s : Bytes)
    → Keeps executed (copy_all fuel os out broken s)
unfolding copy_all
copy_all-executed zero os out broken s = record { same = λ w. refl }
copy_all-executed (suc fuel) os out broken s = record {
  same = λ w. elim (Option-cases (fgets 512 broken s)) [
    | inl e ↦ rw (e, copy_all) refl
    | inr (l, e) ↦
        rw (e, copy_all)
          (wrote-executed os out (c_string l.text) _ w
            (copy_all-executed fuel os out broken l.rest))
  ];
}

opened_socket-executed : (fd : Option ℕ) → Keeps executed (opened_socket fd)
unfolding opened_socket
opened_socket-executed none = executed-exit
opened_socket-executed (some fd) = executed-pure fd

opened_output-executed : (out : Option ℕ) → Keeps executed (opened_output out)
unfolding opened_output
opened_output-executed none = executed-exit
opened_output-executed (some out) = executed-pure out

connected-executed : (r : Option Bool) → Keeps executed (is_connected r)
connected-executed none = executed-exit
connected-executed (some false) = executed-exit
connected-executed (some true) = executed-pure tt

module _ (os : Os) (net : Net) where
  connect_socket-executed : (fuel : ℕ) → Keeps executed (connect_socket fuel net)
  unfolding connect_socket
  connect_socket-executed fuel =
      search (executed_rules, opened_socket-executed, connect_loop-executed, connected-executed)
        depth 14

  request-executed : (fd : ℕ) (text : Bytes) → Keeps executed (request os net fd text)
  unfolding request
  request-executed fd text = search (executed_rules, write_all-executed) depth 14

  headers-executed : (fd cl : ℕ) → Keeps executed (headers net fd cl)
  unfolding headers
  headers-executed fd cl = record { same = λ w. refl }

  give_up-executed : (out fd : ℕ) → Keeps executed (give_up out fd)
  unfolding give_up
  give_up-executed out fd = search executed_rules depth 12

  new_output-executed : Keeps executed (new_output net)
  unfolding new_output
  new_output-executed = search (executed_rules, opened_output-executed) depth 14

  key_answered-executed :
      (buffered : Bytes → Bytes) (fd : ℕ) (answer : Answer)
      → Keeps executed (key_answered buffered os net fd answer)
  unfolding key_answered
  key_answered-executed buffered fd error = search executed_rules depth 10
  key_answered-executed buffered fd (refused cl rest) = search executed_rules depth 10
  key_answered-executed buffered fd (content cl rest) =
      search (executed_rules, new_output-executed, copy_key-executed, give_up-executed) depth 16

  userdata_answered-executed :
      (out fd : ℕ) (answer : Answer) → Keeps executed (userdata_answered os net out fd answer)
  unfolding userdata_answered
  userdata_answered-executed out fd error = search executed_rules depth 12
  userdata_answered-executed out fd (refused cl rest) = executed-pure tt
  userdata_answered-executed out fd (content cl rest) =
      executed-bind (λ w. (some (net.broken w.trace fd), w)) _ (record { same = λ w. refl })
        (λ broken. search (executed_rules, copy_all-executed, give_up-executed) depth 14)

-- The call that starts ucd with the file of the user data.
abbrev pub exec_ucd : Net → Call
exec_ucd net = let ucd = net.bindir ++ str "/ucd" in exec ucd (ucd ∷ str "-u" ∷ aws_user_data ∷ [])

start_program-EndsBy : (net : Net) → EndsBy (exec_ucd net) (start_program net)
unfolding start_program ◌>>=◌ when_fails
start_program-EndsBy net = record {
  outcome = λ w. elim (Bool-cases (net.exec_done w.trace (net.bindir ++ str "/ucd"))) [
    | inl e ↦ rw (e, start_program) (inr (w, refl, refl))
    | inr e ↦ rw (e, start_program) (inr (w, refl, refl))
  ];
}

-- Whatever the service answers, ucd-aws either has no result, as it ends with a failure or still tries to
-- connect after `fuel` rounds, and has executed no other program; or it has called `execl` once: for ucd, with
-- the file of the user data, and as its last call.
pub main-executed :
    (fuel : ℕ) (buffered : Bytes → Bytes) (os : Os) (net : Net) (w : World)
    → let (r, v) = main fuel buffered os net w in
      ((r ≡ none) × (executed v ≡ executed w))
      ⊎ ((u : World) × (executed u ≡ executed w)
          × (v ≡ record u { trace = u.trace ++ (exec_ucd net ∷ []) }))
unfolding main
main-executed fuel buffered os net w =
    let ended : EndsBy (exec_ucd net) (main fuel buffered os net) =
      search
        (
          EndsBy-bind, EndsBy-seq, start_program-EndsBy, executed_rules, connect_socket-executed,
          request-executed, headers-executed, key_answered-executed, userdata_answered-executed,
        )
        depth 24 in
    ended.outcome w
