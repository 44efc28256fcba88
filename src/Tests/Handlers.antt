-- ===== src/Tests/Handlers.antt =====
-- The handlers of the blocks, on small blocks.
use micro_config_drive.Base.{
  str, clip, login_name_max, none, some, List, [], ◌∷◌, ◌++◌, true, ◌≡◌, refl,
}
use micro_config_drive.GNode.{GNode, null, gnode, children, leaves, leaf}
use micro_config_drive.System.{Os, o_wronly, o_creat}
use micro_config_drive.System.Io.{◌>>◌, skip}
use micro_config_drive.Shell.Batch.{Runs}
use micro_config_drive.SshKeys.{write_ssh_keys}
use micro_config_drive.Files.{make_dir, write_file}
use micro_config_drive.System.{o_append}
use micro_config_drive.Base.{path_max, if◌then◌else◌}
use micro_config_drive.Files.Descriptors.{open_fds, opened}
use micro_config_drive.Modules.Commands.{runcmd_handler}
use micro_config_drive.Modules.Commands.Lines.{
  Entry, words, word, block, command_lines, itself, runcmd_handler-Runs,
}
use micro_config_drive.Modules.Envar.{envar_handler}
use micro_config_drive.Modules.Envar.Bindings.{
  bindings, exports, setenv_calls, envar_handler-bindings,
}
use micro_config_drive.Modules.Network.{packages_handler}
use micro_config_drive.Modules.Network.Wait.{WithinBudget, packages_handler-WithinBudget}
use micro_config_drive.Modules.Keys.{key_lines, ssh_authorized_keys_handler}
use micro_config_drive.Modules.Users.{users_handler}
use micro_config_drive.Modules.Users.Accounts.{users_block, ssh_authorized_keys_last}
use micro_config_drive.Modules.WriteFiles.{write_item, ensure_parent, make_parent, all_written}
use micro_config_drive.Modules.WriteFiles.Leaks.{left_open, write_item-open_fds}
use micro_config_drive.Tests.Machine.{machine, start}

abbrev commands : List Entry
commands = words (str "touch" ∷ (str "/x" ∷ [])) ∷ (word (str "ls") ∷ [])

runcmd_handler-Runs_example :
    Runs machine itself
      (runcmd_handler machine (gnode none (block commands) null))
      (command_lines [] commands)
runcmd_handler-Runs_example = runcmd_handler-Runs machine none commands null

abbrev envar_block : GNode
envar_block =
    gnode (some (str "envar")) (gnode none (gnode (some (str "FOO")) (leaf (str "bar")) null) null)
      null

envar_handler-bindings_example :
    let bs = bindings none (children envar_block) in
    let dir = clip path_max (machine.sysconfdir ++ str "/profile.d") in
    let (made, u) = make_dir machine dir 493 (record start { trace = [] ++ setenv_calls bs }) in
    (envar_handler machine envar_block start).1 ≡ (
      if made
      then (write_file machine
          (exports bs)
          (clip path_max (dir ++ str "/cloud-init.sh"))
          (o_creat ∷ (o_append ∷ (o_wronly ∷ [])))
          493
          u).1
      else u)
envar_handler-bindings_example = envar_handler-bindings machine envar_block start

packages_handler-WithinBudget_example :
    WithinBudget (packages_handler machine (gnode (some (str "packages")) (leaf (str "vim")) null))
packages_handler-WithinBudget_example =
    packages_handler-WithinBudget machine (gnode (some (str "packages")) (leaf (str "vim")) null)

abbrev ssh_block : GNode
ssh_block = gnode (some (str "ssh_authorized_keys")) (leaf (str "ssh-rsa A")) null

ssh_authorized_keys_last_example :
    let v =
      (users_handler machine
        (gnode none (users_block (str "ada" ∷ (str "bob" ∷ []))) null)
        start).1 in
    ssh_authorized_keys_handler machine ssh_block v
    ≡ (do
      write_ssh_keys machine (key_lines (leaves ssh_block)) (clip login_name_max (str "bob"))
      skip)
        v
ssh_authorized_keys_last_example =
    ssh_authorized_keys_last machine none (str "ada" ∷ []) (str "bob") ssh_block null start

-- A machine that writes nothing.
abbrev full_disk : Os
full_disk = record machine { written = λ t fd text. none }

ready : (ensure_parent full_disk (str "/tmp") start).0 ≡ true
unfolding ensure_parent make_parent
ready = refl

write_item-open_fds_example :
    let v = (ensure_parent full_disk (str "/tmp") start).1 in
    let u = opened (str "/tmp/x") (o_wronly ∷ (o_creat ∷ [])) (some 3) v in
    open_fds (write_item full_disk (str "text") (str "/tmp/x") null null start).1.trace
    ≡ left_open 3 (all_written (str "text") (full_disk.written u.trace 3 (str "text"))) []
write_item-open_fds_example =
    write_item-open_fds full_disk (str "text") (str "/tmp/x") null null start 3 ready refl
