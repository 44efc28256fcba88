-- ===== src/Userdata/Services.antt =====
-- A document with a `service` block, from the events of the file to the commands.
use micro_config_drive.Base.{
  Bytes, str, str_eq, clip, shown, some, List, [], ◌∷◌, ◌++◌, map, true, false, ◌≡◌, refl,
}
use micro_config_drive.System.{Os}
use micro_config_drive.GNode.{null}
use micro_config_drive.Yaml.Documents.{end, entry_list, file_events}
use micro_config_drive.Shell.Batch.{Runs, Runs-skip, Runs-seq, Runs-cons}
use micro_config_drive.Modules.Commands.Lines.{itself}
use micro_config_drive.Modules.Commands.{
  is_service_action, service_actions, service_item, service_items, service_handler,
}
use micro_config_drive.Modules.Users.Plan.{many}
use micro_config_drive.Modules.Users.Lookup.{leaves-texts}
use micro_config_drive.Userdata.{
  cc_module_structs, prepend_all, find_handler, run_handler, process_blocks, cloud_config_process,
  read_userdata,
}
use micro_config_drive.Userdata.Runcmd.{last_first}
use micro_config_drive.Userdata.Blocks.{list_nodes, last_first-map}
use micro_config_drive.Userdata.Keyed.{Keyed, keyed_items, keyed_node, read_userdata-keyed}

-- The actions of `systemctl` that a document may ask for.
pub data Verb : Type 0 where
  enable disable start stop restart reload isolate mask unmask : Verb

abbrev pub verb_name : Verb → Bytes
verb_name enable = str "enable"
verb_name disable = str "disable"
verb_name start = str "start"
verb_name stop = str "stop"
verb_name restart = str "restart"
verb_name reload = str "reload"
verb_name isolate = str "isolate"
verb_name mask = str "mask"
verb_name unmask = str "unmask"

-- An action on some units, or another key with a list.
pub data Wish : Type 0 where
  act : Verb → Bytes → List Bytes → Wish
  other : Bytes → Bytes → List Bytes → Wish

abbrev pub wish_keyed : Wish → Keyed
wish_keyed (act v unit units) = record { key = verb_name v; first = unit; others = units }
wish_keyed (other name unit units) = record { key = name; first = unit; others = units }

abbrev pub systemctl : Os → Verb → Bytes → Bytes
systemctl os v unit =
    clip 2048 (os.systemctl_path ++ (str " " ++ (verb_name v ++ (str " " ++ unit))))

abbrev pub wish_commands : Os → List Wish → List Bytes
wish_commands os [] = []
wish_commands os (act v unit units ∷ ws) =
    map (systemctl os v) (unit ∷ units) ++ wish_commands os ws
wish_commands os (other name unit units ∷ ws) = wish_commands os ws

-- The other keys are not the names of actions.
abbrev pub AllOther : List Wish → Type 0
AllOther [] = Unit
AllOther (act v unit units ∷ ws) = AllOther ws
AllOther (other name unit units ∷ ws) =
    ((v : Verb) → str_eq name (verb_name v) ≡ false) × AllOther ws

verb_name-action : (v : Verb) → is_service_action (some (verb_name v)) ≡ true
unfolding is_service_action str_eq str
verb_name-action enable = refl
verb_name-action disable = refl
verb_name-action start = refl
verb_name-action stop = refl
verb_name-action restart = refl
verb_name-action reload = refl
verb_name-action isolate = refl
verb_name-action mask = refl
verb_name-action unmask = refl

other-action :
    (name : Bytes)
    → ((v : Verb) → str_eq name (verb_name v) ≡ false)
    → is_service_action (some name) ≡ false
unfolding is_service_action
other-action name h =
    rw
      (
        is_service_action,
        h enable,
        h disable,
        h start,
        h stop,
        h restart,
        h reload,
        h isolate,
        h mask,
        h unmask,
      )
      refl

actions-Runs :
    (os : Os) (v : Verb) (units : List Bytes)
    → Runs os itself
        (service_actions os (some (verb_name v)) (map some units))
        (map (systemctl os v) units)
unfolding service_actions shown
actions-Runs os v [] = Runs-skip os itself
actions-Runs os v (unit ∷ units) =
    Runs-cons os itself (systemctl os v unit) (actions-Runs os v units)

service_items-wishes :
    (os : Os) (ws : List Wish)
    → AllOther ws
    → Runs os itself
        (service_items os (list_nodes (map keyed_node (map wish_keyed ws))))
        (wish_commands os ws)
unfolding service_items service_item
service_items-wishes os [] h = Runs-skip os itself
service_items-wishes os (act v unit units ∷ ws) h =
    rw (verb_name-action v, leaves-texts (some (verb_name v)) (many unit units) null)
      (Runs-seq os itself (actions-Runs os v (unit ∷ units)) (service_items-wishes os ws h))
service_items-wishes os (other name unit units ∷ ws) (h, hs) =
    rw (other-action name h) (service_items-wishes os ws hs)

AllOther-last_first :
    (done ws : List Wish) → AllOther done → AllOther ws → AllOther (last_first done ws)
AllOther-last_first done [] p q = p
AllOther-last_first done (act v unit units ∷ ws) p q =
    AllOther-last_first (act v unit units ∷ done) ws p q
AllOther-last_first done (other name unit units ∷ ws) p (h, q) =
    AllOther-last_first (other name unit units ∷ done) ws (h, p) q

find_service :
    find_handler (some (str "service")) (prepend_all cc_module_structs []) ≡ some service_handler
unfolding find_handler prepend_all cc_module_structs str str_eq
find_service = refl

-- A file whose document is a `service` block, a list of mappings that each give one key with a list of at least
-- one unit: for each key that names one of the nine actions, the last one of the file first, `systemctl` is run
-- with it once for each of its units, in the order of the list, whatever the commands return; for every other
-- key nothing is run. The commands are cut off at 2047 bytes. Nothing else is done with the tree.
pub process-service :
    (os : Os) (ws : List Wish) (filename : Bytes)
    → AllOther ws
    → Runs os itself
        (cloud_config_process os (prepend_all cc_module_structs []) (
          read_userdata
            (file_events (entry_list (str "service") (keyed_items (map wish_keyed ws)) end))
            filename))
        (wish_commands os (last_first [] ws))
unfolding cloud_config_process process_blocks run_handler service_handler
process-service os ws filename h =
    rw (read_userdata-keyed (str "service") (map wish_keyed ws) filename) (
      rw find_service (
        rw (last_first-map wish_keyed [] ws)
          (service_items-wishes os (last_first [] ws) (AllOther-last_first [] ws tt h))))
