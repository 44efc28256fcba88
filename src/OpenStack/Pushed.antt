-- ===== src/OpenStack/Pushed.antt =====
-- Which functions the metadata of a document hand to the pool of threads.
use micro_config_drive.Base.{
  Bytes, Option, none, some, List, [], ◌∷◌, ◌++◌, true, false, ◌≡◌, refl, ◌∙◌, ap, sym, arith,
  append-nil, append_assoc,
}
use micro_config_drive.System.{Trace, load_json}
use micro_config_drive.System.Drive.{Drive, MetadataFunc, Task, metadata}
use micro_config_drive.System.Io.{World}
use micro_config_drive.GNode.{GNode, null, gnode}
use micro_config_drive.Json.{
  JsonNode, Members, object, no_member, member, json_parse, parse_members,
}
use micro_config_drive.Json.Flat.{json_parse-object, parse_members-member}
use micro_config_drive.OpenStack.{Host, openstack_metadata_options}
use micro_config_drive.OpenStack.Tasks.{
  push, find_option, option_of, push_found, openstack_run_handler, run_handlers,
  openstack_process_metadata_file, openstack_metadata_load_options, openstack_metadata_free_options,
  openstack_load_metadata_file, ensure_metadata, document_loaded,
}

-- A function for a node, in front of others.
abbrev pub add_task : Option MetadataFunc → GNode → List Task → List Task
add_task none below tasks = tasks
add_task (some func) below tasks = metadata func below ∷ tasks

-- The functions that the table names for the keys of a document, in its order, each with the tree of the
-- key's value.
abbrev pub member_tasks : Members → List Task
member_tasks no_member = []
member_tasks (member key v ms) =
    add_task (find_option key openstack_metadata_options) (json_parse v false null)
      (member_tasks ms)

abbrev forest_tasks : List (Bytes × MetadataFunc) → GNode → List Task
forest_tasks options null = []
forest_tasks options (gnode key below next) =
    add_task (option_of key options) below (forest_tasks options next)

members-tasks :
    (ms : Members)
    → forest_tasks openstack_metadata_options (parse_members ms null) ≡ member_tasks ms
unfolding parse_members option_of
members-tasks no_member = refl
members-tasks (member key v ms) =
    ap (forest_tasks openstack_metadata_options) (parse_members-member key v ms)
    ∙ ap (add_task (find_option key openstack_metadata_options) (json_parse v false null))
        (members-tasks ms)

add_task-append :
    (ts : List Task) (func : Option MetadataFunc) (below : GNode) (us : List Task)
    → (ts ++ add_task func below []) ++ us ≡ ts ++ add_task func below us
add_task-append ts none below us = ap (λ (vs : List Task). vs ++ us) (append-nil ts)
add_task-append ts (some func) below us = append_assoc ts (metadata func below ∷ []) us

-- A pool that takes what it is given: what else a push changes is the trace.
pub record Takes (h : Host) (options : List (Bytes × MetadataFunc)) (w : World) : Type 0 where
  pub pool : w.thread_pool ≡ true
  pub table : w.drive.options ≡ options

module _ (h : Host) (taken : (t : Trace) → h.task_pushed t ≡ true)
    (options : List (Bytes × MetadataFunc)) where
  push_found-pushed :
      (func : Option MetadataFunc) (below : GNode) (w : World)
      → Takes h options w
      → let v = (push_found h below func w).1 in
        Takes h options v × (v.drive ≡ w.drive) × (v.pushed ≡ w.pushed ++ add_task func below [])
  unfolding push_found push
  push_found-pushed none below w p = (p, refl, sym (append-nil w.pushed))
  push_found-pushed (some func) below w p = ground (arith, taken w.trace)

  run_handlers-pushed :
      (forest : GNode) (w : World)
      → Takes h options w
      → let v = (run_handlers h forest w).1 in
        (v.drive ≡ w.drive) × (v.pushed ≡ w.pushed ++ forest_tasks options forest)
  unfolding run_handlers openstack_run_handler
  run_handlers-pushed null w p = (refl, sym (append-nil w.pushed))
  run_handlers-pushed (gnode key below next) w p =
      let func = option_of key w.drive.options in
      let v = (push_found h below func w).1 in
      let (q, kept, first) = push_found-pushed func below w p in
      let (kept', others) = run_handlers-pushed next v q in
      (
        kept' ∙ kept,
        others
            ∙ ap (λ (ts : List Task). ts ++ forest_tasks options next) first
            ∙ add_task-append w.pushed func below (forest_tasks options next)
            ∙ ap
                (λ (os : List (Bytes × MetadataFunc)).
                  w.pushed ++ add_task (option_of key os) below (forest_tasks options next))
                p.table,
      )

load_options_empty :
    (w : World)
    → w.drive.options ≡ []
    → openstack_metadata_load_options w
      ≡ (tt, record w { drive = record w.drive { options = openstack_metadata_options } })
unfolding openstack_metadata_load_options
load_options_empty w e = ground arith

ensure_metadata_loaded :
    (h : Host) (filename : Bytes) (node : GNode) (root : JsonNode) (w : World)
    → node ≡ null
    → h.json w.trace filename ≡ some root
    → ensure_metadata h filename node w ≡ (
      true,
      record w {
        drive = record w.drive {
          metadata_node = gnode (some filename) (json_parse root false null) null;
        };
        trace = w.trace ++ (load_json filename ∷ []);
      },
    )
unfolding ensure_metadata openstack_load_metadata_file document_loaded
ensure_metadata_loaded h filename null root w e parsed = ground arith
ensure_metadata_loaded h filename (gnode name below next) root w e parsed = cc

-- The first reading of a document that is an object, in a process with a pool: the functions that the table
-- names for its keys are handed to the pool, in the order of the document and each with the tree of its
-- key's value; keys without a function are passed over. The result is true, and the tree is kept.
pub process_metadata_file-pushed :
    (h : Host) (filename : Bytes) (ms : Members) (w : World)
    → ((t : Trace) → h.task_pushed t ≡ true)
    → w.thread_pool ≡ true
    → w.drive.options ≡ []
    → w.drive.metadata_node ≡ null
    → h.json w.trace filename ≡ some (object ms)
    → let (r, v) = openstack_process_metadata_file h filename w in
      (r ≡ true)
      × (v.pushed ≡ w.pushed ++ member_tasks ms)
      × (v.drive.options ≡ [])
      × (v.drive.metadata_node ≡ gnode (some filename) (json_parse (object ms) false null) null)
unfolding openstack_process_metadata_file openstack_metadata_free_options parse_members option_of
process_metadata_file-pushed h filename ms w taken pool no_options no_node parsed =
    let d = record w.drive { options = openstack_metadata_options } in
    let root = gnode (some filename) (json_parse (object ms) false null) null in
    let v = record w {
      drive = record d { metadata_node = root };
      trace = w.trace ++ (load_json filename ∷ []);
    } in
    let (kept, handed) =
      run_handlers-pushed h taken openstack_metadata_options (json_parse (object ms) false null) v
        (record { pool = pool; table = refl }) in
    let u = record w { drive = d } in
    rw
      (
        load_options_empty w no_options,
        ensure_metadata_loaded h filename w.drive.metadata_node (object ms) u no_node parsed,
      )
      (
        refl,
        handed
            ∙ ap (λ (t : GNode). w.pushed ++ forest_tasks openstack_metadata_options t)
                (json_parse-object ms false)
            ∙ ap (λ (ts : List Task). w.pushed ++ ts) (members-tasks ms),
        refl,
        ap (λ (e : Drive). e.metadata_node) kept,
      )
