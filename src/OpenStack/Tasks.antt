-- ===== src/OpenStack/Tasks.antt =====
-- The tree of the metadata in src/datasources/openstack.c: how it is loaded, and how its keys find their
-- functions, which the pool of threads runs.
use micro_config_drive.Base.{
  Bytes, str, str_eq, data_eq, Option, none, some, List, [], ◌∷◌, ◌++◌, Bool, true, false,
  if◌then◌else◌,
}
use micro_config_drive.System.{push_task, load_json}
use micro_config_drive.System.Drive.{MetadataFunc, Task, metadata}
use micro_config_drive.System.Io.{Io, ◌>>=◌, ◌>>◌, pure, skip, call}
use micro_config_drive.GNode.{GNode, null, gnode, children}
use micro_config_drive.Json.{JsonNode, json_parse}
use micro_config_drive.OpenStack.{Host, change, the_drive, openstack_metadata_options}
use micro_config_drive.OpenStack.Handlers.{openstack_metadata_uuid}

abbrev append_task : Task → Io (Unit {0})
append_task task w =
    (tt, record w { pushed = w.pushed ++ (task ∷ []); taken = w.taken ++ (task ∷ []) })

-- `async_task_run` of src/async_task.c, whose result no caller reads. Where `g_thread_pool_push` reports that no
-- new thread could be made, the function is in the queue all the same.
unfoldable pub push : Host → Task → Io (Unit {0})
push h task w =
    if w.thread_pool then (do call push_task h.task_pushed; append_task task) w else (tt, w)

-- `openstack_metadata_load_options`: a table that is there is kept.
unfoldable pub openstack_metadata_load_options : Io (Unit {0})
openstack_metadata_load_options w = elim w.drive.options [
  | o ∷ os ↦ (tt, w)
  | [] ↦ change (λ d. record d { options = openstack_metadata_options }) w
]

unfoldable pub openstack_metadata_free_options : Io (Unit {0})
openstack_metadata_free_options = change (λ d. record d { options = [] })

-- `g_hash_table_lookup` with the data of a node, which is not NULL
unfoldable pub find_option : Bytes → List (Bytes × MetadataFunc) → Option MetadataFunc
find_option key [] = none
find_option key ((name, func) ∷ os) = if str_eq key name then some func else find_option key os

-- The function of a key, if the key has one.
unfoldable pub option_of : Option Bytes → List (Bytes × MetadataFunc) → Option MetadataFunc
option_of none options = none
option_of (some key) options = find_option key options

unfoldable pub push_found : Host → GNode → Option MetadataFunc → Io (Unit {0})
push_found h below none = skip
push_found h below (some func) = push h (metadata func below)

unfoldable pub openstack_run_handler : Host → Option Bytes → GNode → Io (Unit {0})
openstack_run_handler h key below w = push_found h below (option_of key w.drive.options) w

-- `g_node_children_foreach (metadata_node, G_TRAVERSE_ALL, openstack_run_handler, NULL)`
unfoldable pub run_handlers : Host → GNode → Io (Unit {0})
run_handlers h null = skip
run_handlers h (gnode key below next) = do openstack_run_handler h key below; run_handlers h next

-- A document that could be read becomes the tree, in place of any that was there.
unfoldable pub document_loaded : Bytes → Option JsonNode → Io Bool
document_loaded filename none = pure false
document_loaded filename (some root) = do
  change (λ d. record d { metadata_node = gnode (some filename) (json_parse root false null) null })
  pure true

unfoldable pub openstack_load_metadata_file : Host → Bytes → Io Bool
openstack_load_metadata_file h filename = do
  root ← call (load_json filename) (λ t. h.json t filename)
  document_loaded filename root

-- `!metadata_node && !openstack_load_metadata_file (filename)` is false: there is a tree.
unfoldable pub ensure_metadata : Host → Bytes → GNode → Io Bool
ensure_metadata h filename null = openstack_load_metadata_file h filename
ensure_metadata h filename (gnode name below next) = pure true

-- The keys at the top of the tree, in their order, once the tree is there.
unfoldable pub openstack_process_metadata_file : Host → Bytes → Io Bool
openstack_process_metadata_file h filename = do
  openstack_metadata_load_options
  d ← the_drive
  loaded ← ensure_metadata h filename d.metadata_node
  if loaded
      then (do
        d' ← the_drive
        run_handlers h (children d'.metadata_node)
        openstack_metadata_free_options
        pure true)
      else pure false

-- The children that `openstack_process_uuid` leaves, and its work on the others.
unfoldable pub process_uuids : Host → GNode → Io GNode
process_uuids h null = pure null
process_uuids h (gnode key below next) =
    if data_eq key (str "uuid")
    then (do openstack_metadata_uuid h.os below; process_uuids h next)
    else (do rest ← process_uuids h next; pure (gnode key below rest))

abbrev pub with_children : GNode → GNode → GNode
with_children null below = null
with_children (gnode name old next) below = gnode name below next

-- `g_node_children_foreach (metadata_node, G_TRAVERSE_ALL, openstack_process_uuid, NULL)`
unfoldable pub openstack_process_uuid : Host → Io (Unit {0})
openstack_process_uuid h = do
  d ← the_drive
  rest ← process_uuids h (children d.metadata_node)
  change (λ d'. record d' { metadata_node = with_children d'.metadata_node rest })
