-- ===== src/Start/Metadata.antt =====
-- What the program does with a file of metadata, from the options to the handlers.
use mathlib.Core.Path.{fun_ext}
use micro_config_drive.Base.{
  ℕ, Bytes, str, data_eq, not, Bool, none, some, List, [], ◌∷◌, ◌++◌, true, false, ◌&&◌, ◌≡◌, refl,
  ◌∙◌, ap,
}
use micro_config_drive.System.{Trace, realpath, geteuid}
use micro_config_drive.System.Drive.{
  Drive, Task, metadata, fixdisk, MetadataFunc, not_implemented, uuid, keys, hostname, public_keys,
  files,
}
use micro_config_drive.System.Io.{World, skip}
use micro_config_drive.System.Views.{vars-OnlyCalls, pool-OnlyCalls}
use micro_config_drive.Files.{make_dir, mode_700}
use micro_config_drive.Files.Variables.{make_dir-OnlyCalls}
use micro_config_drive.GNode.{GNode, null, gnode}
use micro_config_drive.Simplify.Normal.{some_node}
use micro_config_drive.Json.{Members, object}
use micro_config_drive.OpenStack.Tasks.{openstack_process_metadata_file}
use micro_config_drive.OpenStack.Pushed.{member_tasks, process_metadata_file-pushed}
use micro_config_drive.Start.{
  Computer, Source, let_run, run_picks, run_rest, run_tasks, gather, apply, process, given_metadata,
  found_metadata, given_drive, find_source, setup, source_metadata, given_userdata, source_userdata,
  async_task_finish, finish_handled,
}
use micro_config_drive.Start.Options.{Settings, no_settings, settings}

-- `--openstack-metadata-file` and nothing else.
abbrev pub with_metadata : Bytes → Settings
with_metadata filename = record no_settings {
  openstack = true;
  tmp_metadata_filename = some filename;
}

-- Whether every key of public keys has a value below it.
abbrev pub keys_held : GNode → Bool
keys_held null = true
keys_held (gnode none below next) = keys_held next
keys_held (gnode (some name) null next) = false
keys_held (gnode (some name) (gnode key below' next') next) = keys_held next

-- Whether every `data` has a value below it.
abbrev pub data_held : GNode → Bool
data_held null = true
data_held (gnode name null next) = not (data_eq name (str "data")) && data_held next
data_held (gnode name (gnode key below' next') next) = data_held next

-- Whether a function finds the nodes that it follows: not where a JSON null or an empty list stands for them.
abbrev pub func_held : MetadataFunc → GNode → Bool
func_held not_implemented node = some_node node
func_held uuid null = false
func_held uuid (gnode none below next) = false
func_held uuid (gnode (some id) below next) = true
func_held keys node = data_held node
func_held hostname node = some_node node
func_held public_keys node = some_node node && keys_held node
func_held files node = true

abbrev pub all_held : List Task → Bool
all_held [] = true
all_held (metadata func node ∷ tasks) = func_held func node && all_held tasks
all_held (fixdisk ∷ tasks) = all_held tasks

-- No datasource, and no failure.
abbrev no_source_found : Source
no_source_found = record { handled = false; fine = true; first_boot = false }

module _ (c : Computer) (filename path : Bytes) (ms : Members)
    (resolved : (t : Trace) → c.host.os.real_path t filename ≡ some path)
    (parsed : (t : Trace) → c.host.json t path ≡ some (object ms))
    (made : (t : Trace) → c.pool_made t ≡ true) (taken : (t : Trace) → c.host.task_pushed t ≡ true)
    (idle : (t : Trace) → c.picks t ≡ []) where
  let_run_idle : let_run c ≡ skip
  unfolding let_run run_picks
  let_run_idle = fun_ext λ w. rw (idle w.trace) refl

  apply_nothing :
      (w : World)
      → apply c (with_metadata filename) no_source_found w
        ≡ (0, (run_tasks c w.pushed (record w { thread_pool = false; pushed = [] })).1)
  unfolding apply setup source_metadata given_userdata source_userdata async_task_finish run_rest
      finish_handled
  apply_nothing w = rw let_run_idle refl

  -- The world in which the metadata are read.
  abbrev pub reading : World → World
  reading w =
      let u = record w { trace = w.trace ++ (geteuid ∷ []) } in
      let v = (make_dir c.host.os c.host.os.datadir_path mode_700 u).1 in
      record v { thread_pool = c.pool_made v.trace; trace = v.trace ++ (realpath filename ∷ []) }

  gather_metadata :
      (w : World)
      → gather c (with_metadata filename) w ≡ (
          let (r, v) = openstack_process_metadata_file c.host path (reading w) in
          (record { handled = false; fine = r && true && true; first_boot = false }, v))
  unfolding gather given_metadata found_metadata given_drive find_source
  gather_metadata w =
      let u = record w { trace = w.trace ++ (geteuid ∷ []) } in
      let v = (make_dir c.host.os c.host.os.datadir_path mode_700 u).1 in
      rw let_run_idle (rw (resolved v.trace) refl)

  -- The option `--openstack-metadata-file` alone, in a process that begins, with a file that is there and holds
  -- an object, in which the functions find the nodes that they follow (a JSON null or an empty list in their
  -- place is a crash), and with threads that run nothing before the program waits for them: it ends with status 0,
  -- and has run the functions that the table names for the keys of the document, in its order and each with the
  -- tree of its key's value. Before them it has made its directory and read the document, and behind them
  -- it does nothing.
  pub process_metadata :
      (w : World)
      → w.drive.options ≡ []
      → w.drive.metadata_node ≡ null
      → w.pushed ≡ []
      → all_held (member_tasks ms) ≡ true
      → let v = (openstack_process_metadata_file c.host path (reading w)).1 in
        process c (settings (with_metadata filename)) w
        ≡ (0, (run_tasks c (member_tasks ms) (record v { thread_pool = false; pushed = [] })).1)
  unfolding process
  process_metadata w no_options no_node none_pushed held =
      let u = record w { trace = w.trace ++ (geteuid ∷ []) } in
      let dir = make_dir-OnlyCalls c.host.os c.host.os.datadir_path mode_700 in
      let x = reading w in
      let same_vars = (vars-OnlyCalls _ dir).same u in
      let same_pushed = (pool-OnlyCalls _ dir).same u in
      let (fine, handed, _, _) =
        process_metadata_file-pushed c.host path ms x taken (made _)
          (ap (λ (d : Drive). d.options) same_vars ∙ no_options)
          (ap (λ (d : Drive). d.metadata_node) same_vars ∙ no_node) (parsed _) in
      let v = (openstack_process_metadata_file c.host path x).1 in
      let waiting =
        handed
        ∙ ap (λ (ts : List Task). ts ++ member_tasks ms)
            (ap (λ (r : List Task × List Task × List Task). r.0) same_pushed ∙ none_pushed) in
      rw (gather_metadata w, fine, apply_nothing v)
        (ap
          (λ (ts : List Task).
            let result : ℕ × World =
              (0, (run_tasks c ts (record v { thread_pool = false; pushed = [] })).1) in
            result)
          waiting)
