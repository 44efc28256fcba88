-- ===== src/Tests/Files.antt =====
-- Files of user data, and the trees that come of them.
use micro_config_drive.Base.{
  str, starts_with, line_max, none, some, List, [], ◌∷◌, true, false, ◌≡◌, ◌↔◌, refl,
}
use micro_config_drive.System.{fopen, fclose}
use micro_config_drive.GNode.{GNode, null, gnode, leaf}
use micro_config_drive.Yaml.Documents.{end, entry_list, file_events}
use micro_config_drive.Simplify.{simplify}
use micro_config_drive.Simplify.Normal.{IsNormal, simplify-IsNormal}
use micro_config_drive.Shell.Batch.{Runs}
use micro_config_drive.Modules.Commands.Lines.{Entry, words, word, itself}
use micro_config_drive.Fetch.Stream.{Line, fgets, take_line}
use micro_config_drive.Userdata.{
  cc_module_structs, prepend_all, cloud_config_process, read_userdata, userdata_process_file,
}
use micro_config_drive.Userdata.Runcmd.{
  items_of, texts, lists, last_first, executed, process-runcmd,
}
use micro_config_drive.Userdata.Scripts.{CanRun, after, userdata_process_file_script}
use micro_config_drive.Tests.Machine.{machine, start}

abbrev items : List Entry
items =
    words (str "touch" ∷ (str "/x" ∷ [])) ∷ (word (str "ls /root") ∷ (words (str "date" ∷ []) ∷ []))

process-runcmd_example :
    Runs machine itself
      (cloud_config_process machine (prepend_all cc_module_structs []) (
        read_userdata
          (file_events (entry_list (str "runcmd") (items_of items) end))
          (str "user-data")))
      (executed (texts items) (last_first [] (lists items)))
process-runcmd_example = process-runcmd machine items (str "user-data") (refl, (refl, tt))

abbrev script_line : Line
script_line = record { complete = true; text = str "#!/bin/sh\n"; rest = [] }

script_read : fgets line_max false (str "#!/bin/sh\n") ≡ some script_line
unfolding fgets take_line str
script_read = refl

script_starts : starts_with (str "#!/bin/sh\n") (str "#!") ≡ true
unfolding starts_with str
script_starts = refl

userdata_process_file_script_example :
    ((userdata_process_file machine (λ t p. []) (str "user-data") start).0 ≡ true)
    ↔ CanRun machine
        (str "user-data")
        (after (after start (fopen (str "user-data") ∷ [])) (fclose 5 ∷ []))
userdata_process_file_script_example =
    userdata_process_file_script machine (λ t p. []) (str "user-data") 5 script_line start refl
      script_read refl script_starts

-- A list in a list, with a text behind it.
abbrev nested : GNode
nested =
    gnode none (gnode none (leaf (str "a")) (gnode (some (str "b")) null null))
      (gnode none null null)

simplify-IsNormal_example : IsNormal (simplify nested).0 × IsNormal (simplify nested).1
simplify-IsNormal_example = simplify-IsNormal nested
