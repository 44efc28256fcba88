-- ===== src/Fetch/Main/Executed/Loops.antt =====
-- The loops of src/ucd-data-fetch.c execute no other program.
use micro_config_drive.Base.{
  ℕ, zero, suc, Bytes, str, length, Option, none, some, Bool, true, refl, ◌∙◌, inl, inr,
  Option-cases, Bool-cases,
}
use micro_config_drive.System.{Os, look_up, connect, nanosleep}
use micro_config_drive.System.Views.{Keeps, Keeps-pure, Keeps-bind, Keeps-if}
use micro_config_drive.Fetch.Stream.{fgets}
use micro_config_drive.Fetch.Main.Ending.{Exit, pure, exit_failure}
use micro_config_drive.Fetch.Lines.{
  c_string, write_prefix, end_line, ends_line, write_line, less, write_lines,
}
use micro_config_drive.Fetch.Connect.{
  Net, LookUp, address, no_address, try_again, fails, Connected, connected, retry, refuses, nap,
  look_up_loop, connect_loop,
}
use micro_config_drive.Fetch.Main.Executed.{
  executed, executed-make, executed-bind, executed-seq, executed-pure, executed-exit,
  executed_rules, write_all-executed,
}

looked_up-executed :
    (found : LookUp) (m : Exit ℕ) (k : Exit ℕ)
    → Keeps executed m
    → Keeps executed k
    → Keeps executed (elim found as (λ _. Exit ℕ) [
      | address ↦ m
      | no_address ↦ exit_failure
      | fails ↦ exit_failure
      | try_again ↦ k
    ])
looked_up-executed address m k p q = p
looked_up-executed no_address m k p q = executed-exit
looked_up-executed fails m k p q = executed-exit
looked_up-executed try_again m k p q = q

pub look_up_loop-executed :
    (net : Net) (ip : Bytes) (left : ℕ) → Keeps executed (look_up_loop net ip left)
unfolding look_up_loop
look_up_loop-executed net ip zero =
    executed-bind _ _ (executed-make (look_up ip) (λ t. net.looked_up t ip) (λ n. refl))
      (λ found. looked_up-executed found _ _ (executed-pure 0) (search executed_rules depth 8))
look_up_loop-executed net ip (suc left) =
    let again = look_up_loop-executed net ip left in
    executed-bind _ _ (executed-make (look_up ip) (λ t. net.looked_up t ip) (λ n. refl)) (λ found.
      looked_up-executed found _ _ (executed-pure (suc left))
        (executed-seq _ _ (executed-make (nanosleep nap) (λ t. tt) (λ n. refl)) again))

answered-executed :
    (r : Connected) (m : Exit (Unit {0}))
    → Keeps executed m
    → Keeps executed (elim r as (λ _. Exit (Unit {0})) [
      | connected ↦ pure tt
      | refuses ↦ exit_failure
      | retry ↦ m
    ])
answered-executed connected m p = executed-pure tt
answered-executed refuses m p = executed-exit
answered-executed retry m p = p

pub connect_loop-executed : (net : Net) (fd left : ℕ) → Keeps executed (connect_loop net fd left)
unfolding connect_loop
connect_loop-executed net fd zero =
    executed-bind _ _ (executed-make (connect fd) (λ t. net.connect_done t fd) (λ n. refl))
      (λ r. answered-executed r _ (search executed_rules depth 8))
connect_loop-executed net fd (suc left) =
    let again = connect_loop-executed net fd left in
    executed-bind _ _ (executed-make (connect fd) (λ t. net.connect_done t fd) (λ n. refl)) (λ r.
      answered-executed r _
        (executed-seq _ _ (executed-make (nanosleep nap) (λ t. tt) (λ n. refl)) again))

write_prefix-executed :
    (os : Os) (out : ℕ) (prefix : Option Bytes) → Keeps executed (write_prefix os out prefix)
unfolding write_prefix
write_prefix-executed os out none = Keeps-pure true
write_prefix-executed os out (some prefix) = write_all-executed os out prefix

end_line-executed : (os : Os) (out : ℕ) (text : Bytes) → Keeps executed (end_line os out text)
unfolding end_line
end_line-executed os out text = record {
  same = λ w. elim (Bool-cases (ends_line (os.uninitialised w.trace) text)) [
    | inl e ↦ rw (e, end_line) refl
    | inr e ↦ rw (e, end_line) ((write_all-executed os out (str "\n")).same w)
  ];
}

write_line-executed :
    (os : Os) (out : ℕ) (prefix : Option Bytes) (text : Bytes)
    → Keeps executed (write_line os out prefix text)
unfolding write_line
write_line-executed os out prefix text =
    search
      (
        Keeps-pure, Keeps-bind, Keeps-if, write_prefix-executed, write_all-executed,
        end_line-executed,
      )
      depth 14

pub write_lines-executed :
    (fuel : ℕ) (os : Os) (out : ℕ) (prefix : Option Bytes) (broken : Bool) (cl : ℕ) (s : Bytes)
    → Keeps executed (write_lines fuel os out prefix broken cl s)
unfolding write_lines
write_lines-executed zero os out prefix broken cl s = record { same = λ w. refl }
write_lines-executed (suc fuel) os out prefix broken zero s = record { same = λ w. refl }
write_lines-executed (suc fuel) os out prefix broken (suc cl) s = record {
  same = λ w. elim (Option-cases (fgets 2048 broken s)) [
    | inl e ↦ rw (e, write_lines) refl
    | inr (l, e) ↦
        let text = c_string l.text in
        let wrote = write_line-executed os out prefix text in
        let more =
          write_lines-executed fuel os out prefix broken (less (suc cl) (length text)) l.rest in
        elim (Bool-cases (write_line os out prefix text w).0) [
          | inl y ↦
              rw (e, write_lines, y) (more.same (write_line os out prefix text w).1 ∙ wrote.same w)
          | inr n ↦ rw (e, write_lines, n) (wrote.same w)
        ]
  ];
}
