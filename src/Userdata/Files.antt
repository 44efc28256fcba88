-- ===== src/Userdata/Files.antt =====
-- A document with a `write_files` block, from the events of the file to the calls for its items.
use micro_config_drive.Base.{
  ℕ, Bytes, str, str_eq, Option, none, some, List, [], ◌∷◌, ◌++◌, true, ◌≡◌, refl, map, ap,
}
use micro_config_drive.System.{Os, Passwd}
use micro_config_drive.System.Io.{World}
use micro_config_drive.GNode.{null, gnode}
use micro_config_drive.Yaml.Documents.{
  Items, nil, table, Entries, end, entry, entry_list, item_nodes, entry_nodes, file_events,
}
use micro_config_drive.Simplify.Normal.{IsNormal, all_data, some_node}
use micro_config_drive.Modules.WriteFiles.{write_files_handler}
use micro_config_drive.Modules.WriteFiles.Plan.{pair_nodes, file_nodes, Steady, items_calls}
use micro_config_drive.Modules.WriteFiles.Performs.{write_files_handler-Calls}
use micro_config_drive.Userdata.Blocks.{list_nodes, AllNormal, last_first-map, read_userdata-list}
use micro_config_drive.Userdata.Runcmd.{last_first}
use micro_config_drive.Userdata.{
  cc_module_structs, prepend_all, find_handler, run_handler, process_blocks, cloud_config_process,
  read_userdata,
}

-- An item as a mapping of the document, and a list of items.
abbrev pub pair_entries : List (Bytes × Bytes) → Entries
pair_entries [] = end
pair_entries ((key, text) ∷ pairs) = entry key text (pair_entries pairs)

abbrev pub file_items : List (List (Bytes × Bytes)) → Items
file_items [] = nil
file_items (item ∷ items) = table (pair_entries item) (file_items items)

-- No item is empty.
abbrev pub AllKeyed : List (List (Bytes × Bytes)) → Type 0
AllKeyed [] = Unit
AllKeyed (item ∷ items) = (some_node (pair_nodes item) ≡ true) × AllKeyed items

entry_nodes-pairs :
    (item : List (Bytes × Bytes)) → entry_nodes (pair_entries item) ≡ pair_nodes item
unfolding entry_nodes
entry_nodes-pairs [] = refl
entry_nodes-pairs ((key, text) ∷ pairs) = rw (entry_nodes-pairs pairs) refl

item_nodes-files :
    (items : List (List (Bytes × Bytes)))
    → item_nodes (file_items items) ≡ list_nodes (map pair_nodes items)
unfolding item_nodes
item_nodes-files [] = refl
item_nodes-files (item ∷ items) = rw (entry_nodes-pairs item, item_nodes-files items) refl

file_nodes-list :
    (items : List (List (Bytes × Bytes))) → file_nodes items ≡ list_nodes (map pair_nodes items)
file_nodes-list [] = refl
file_nodes-list (item ∷ items) = ap (gnode none (pair_nodes item)) (file_nodes-list items)

pair_nodes-IsNormal :
    (item : List (Bytes × Bytes)) → (all_data (pair_nodes item) ≡ true) × IsNormal (pair_nodes item)
pair_nodes-IsNormal [] = (refl, tt)
pair_nodes-IsNormal ((key, text) ∷ pairs) =
    let (d, normal) = pair_nodes-IsNormal pairs in (d, ((tt, tt), normal))

pair_nodes-AllNormal :
    (items : List (List (Bytes × Bytes))) → AllKeyed items → AllNormal (map pair_nodes items)
pair_nodes-AllNormal [] h = tt
pair_nodes-AllNormal (item ∷ items) (filled, h) =
    let (d, normal) = pair_nodes-IsNormal item in
    ((filled, d, normal), pair_nodes-AllNormal items h)

read_userdata-files :
    (items : List (List (Bytes × Bytes))) (filename : Bytes)
    → AllKeyed items
    → read_userdata (file_events (entry_list (str "write_files") (file_items items) end)) filename
      ≡ gnode
          (some filename)
          (gnode none
            (gnode (some (str "write_files")) (file_nodes (last_first [] items)) null)
            null)
          null
read_userdata-files items filename h =
    rw (file_nodes-list (last_first [] items), ← last_first-map pair_nodes [] items)
      (read_userdata-list (str "write_files") (file_items items) (map pair_nodes items) filename
        (item_nodes-files items) (pair_nodes-AllNormal items h))

find_write_files :
    find_handler (some (str "write_files")) (prepend_all cc_module_structs [])
    ≡ some write_files_handler
unfolding find_handler prepend_all cc_module_structs str str_eq
find_write_files = refl

-- A file whose document is a `write_files` block, a list of items with at least one key each and texts for their
-- values, where every directory can be written to, every write writes all its bytes, errno holds no ERANGE, and
-- the files that open, the users and the groups stay the same: the calls of the items are made, the last item of
-- the file first, and nothing but the trace changes. For an item these are, by its first content, path,
-- permissions and owner, whatever the order of its keys: none without a content or a path; otherwise the check of
-- the directory and the opening of the path, and where it opens the writing of the content, its mode if the
-- permissions are an octal number, the closing, and the look-ups and the change of the owner.
pub process-write_files :
    (os : Os) (fd : Bytes → Option ℕ) (user : Bytes → Option Passwd) (group : Bytes → Option ℕ)
    (items : List (List (Bytes × Bytes))) (filename : Bytes) (w : World)
    → Steady os fd user group
    → AllKeyed items
    → (cloud_config_process os
        (prepend_all cc_module_structs [])
        (read_userdata
          (file_events (entry_list (str "write_files") (file_items items) end))
          filename)
        w).1
      ≡ record w { trace = w.trace ++ items_calls os fd user group (last_first [] items) }
unfolding cloud_config_process process_blocks run_handler
process-write_files os fd user group items filename w steady h =
    rw (read_userdata-files items filename h) (
      rw find_write_files (
        write_files_handler-Calls os fd user group steady (some (str "write_files"))
          (last_first [] items) null w))
