-- ===== src/Userdata/Scripts.antt =====
-- What a shell script as user data comes to.
use micro_config_drive.Base.{
  ℕ, Bytes, str, starts_with, line_max, some, List, [], ◌∷◌, ◌++◌, true, false, ◌≡◌, ◌↔◌, refl,
  arith, inl, inr, Option-cases, Bool-cases,
}
use micro_config_drive.System.{Os, Trace, fopen, fclose, realpath}
use micro_config_drive.System.Io.{World}
use micro_config_drive.Yaml.{Event}
use micro_config_drive.Fetch.Stream.{Line, fgets}
use micro_config_drive.Userdata.{
  owner_all, run_script, make_executable, shell_script_main, interpret, close_and_interpret,
  process_open_file, userdata_process_file,
}

abbrev pub after : World → Trace → World
after w calls = record w { trace = w.trace ++ calls }

not_cloud_config :
    (s : Bytes) → starts_with s (str "#!") ≡ true → starts_with s (str "#cloud-config") ≡ false
unfolding starts_with str
not_cloud_config [] h = refl
not_cloud_config (c ∷ []) h = absurd (ground arith)
not_cloud_config (c ∷ (d ∷ s)) h = ground arith

-- The path is there, and its mode can be changed.
abbrev pub CanRun : Os → Bytes → World → Type 0
CanRun os filename w =
    (path : Bytes) × (os.real_path w.trace filename ≡ some path)
    × (os.chmod_done (after w (realpath filename ∷ [])).trace path owner_all ≡ true)

interpret_script :
    (os : Os) (libyaml : Trace → Bytes → List Event) (filename shebang : Bytes) (w : World)
    → starts_with shebang (str "#!") ≡ true
    → ((interpret os libyaml filename shebang w).0 ≡ true) ↔ CanRun os filename w
unfolding interpret shell_script_main make_executable run_script
interpret_script os libyaml filename shebang w h =
    let v = after w (realpath filename ∷ []) in
    rw (not_cloud_config shebang h) (
      rw h (elim (Option-cases (os.real_path w.trace filename)) [
        | inl e ↦ (λ p. absurd (ground arith), λ q. absurd (ground arith))
        | inr (path, e) ↦ elim (Bool-cases (os.chmod_done v.trace path owner_all)) [
          | inl f ↦ (λ p. (path, e, f), λ q. ground arith)
          | inr f ↦ (λ p. absurd (ground arith), λ q. absurd (ground arith))
        ]
      ]))

-- A file that can be opened, read and closed again and whose first line starts with `#!`: the result is
-- true exactly if its path can be resolved and made executable. What the script itself returns does not
-- count.
pub userdata_process_file_script :
    (os : Os) (libyaml : Trace → Bytes → List Event) (filename : Bytes) (fd : ℕ) (l : Line)
    (w : World)
    → os.fopen_file w.trace filename ≡ some fd
    → let v = after w (fopen filename ∷ []) in
      fgets line_max false (os.stream v.trace fd) ≡ some l
      → os.fclose_done v.trace fd ≡ true
      → starts_with l.text (str "#!") ≡ true
      → ((userdata_process_file os libyaml filename w).0 ≡ true)
        ↔ CanRun os filename (after v (fclose fd ∷ []))
unfolding userdata_process_file process_open_file close_and_interpret
userdata_process_file_script os libyaml filename fd l w opened read closed h =
    let v = after w (fopen filename ∷ []) in
    rw (opened, process_open_file)
      (rw (read, close_and_interpret)
        (rw closed (interpret_script os libyaml filename l.text (after v (fclose fd ∷ [])) h)))
