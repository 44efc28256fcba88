-- ===== src/Userdata/Runcmd.antt =====
-- A document with a `runcmd` block, from the events of the file to the commands that are run.
use micro_config_drive.Base.{
  suc, Bytes, str, str_eq, length, none, some, List, [], ◌∷◌, map, true, ◌≡◌, refl, arith,
}
use micro_config_drive.System.{Os}
use micro_config_drive.GNode.{null, gnode, append_node, append_node-null}
use micro_config_drive.Yaml.{ignored, mapping_end, stream_end}
use micro_config_drive.Yaml.Documents.{
  Items, nil, text, list, end, entry_list, item_nodes, entry_nodes, file_events,
  length-entry_events, parse_file_document,
}
use micro_config_drive.Simplify.{data_children, moved, unless_empty, simplify}
use micro_config_drive.Simplify.Normal.{IsNormal, all_data, some_node, simplify_normal}
use micro_config_drive.Shell.Batch.{Runs}
use micro_config_drive.Modules.Commands.Lines.{
  Entry, words, word, scalars, block, join, command_lines, itself, runcmd_handler-Runs,
}
use micro_config_drive.Modules.Commands.{runcmd_handler}
use micro_config_drive.Userdata.{
  cc_module_structs, prepend_all, find_handler, run_handler, process_blocks, cloud_config_process,
  read_userdata,
}

-- The items of a YAML sequence.
abbrev pub text_items : List Bytes → Items
text_items [] = nil
text_items (w ∷ ws) = text w (text_items ws)

abbrev pub items_of : List Entry → Items
items_of [] = nil
items_of (words ws ∷ es) = list (text_items ws) (items_of es)
items_of (word w ∷ es) = text w (items_of es)

abbrev pub texts : List Entry → List Bytes
texts [] = []
texts (words ws ∷ es) = texts es
texts (word w ∷ es) = w ∷ texts es

abbrev pub lists : List Entry → List (List Bytes)
lists [] = []
lists (words ws ∷ es) = ws ∷ lists es
lists (word w ∷ es) = lists es

-- A list, last one first, in front of others.
abbrev pub last_first : {A : Type 0} → List A → List A → List A
last_first done [] = done
last_first done (x ∷ xs) = last_first (x ∷ done) xs

-- No list of the block is empty.
abbrev pub AllFilled : List (List Bytes) → Type 0
AllFilled [] = Unit
AllFilled (ws ∷ wss) = (some_node (scalars ws null) ≡ true) × AllFilled wss

-- All texts of the block as one command, if there is a text, and then its lists, the last one first.
abbrev pub executed : List Bytes → List (List Bytes) → List Bytes
executed [] wss = map join wss
executed (t ∷ ts) wss = join (t ∷ ts) ∷ map join wss

item_nodes-text_items : (ws : List Bytes) → item_nodes (text_items ws) ≡ scalars ws null
unfolding item_nodes
item_nodes-text_items [] = refl
item_nodes-text_items (w ∷ ws) = rw (item_nodes-text_items ws)

item_nodes-items_of : (es : List Entry) → item_nodes (items_of es) ≡ block es
unfolding item_nodes
item_nodes-items_of [] = refl
item_nodes-items_of (words ws ∷ es) = rw (item_nodes-text_items ws, item_nodes-items_of es)
item_nodes-items_of (word w ∷ es) = rw (item_nodes-items_of es)

all_data-scalars : (ws : List Bytes) → all_data (scalars ws null) ≡ true
all_data-scalars [] = refl
all_data-scalars (w ∷ ws) = all_data-scalars ws

scalars-IsNormal : (ws : List Bytes) → IsNormal (scalars ws null)
scalars-IsNormal [] = tt
scalars-IsNormal (w ∷ ws) = (tt, scalars-IsNormal ws)

block-IsNormal : (es : List Entry) → AllFilled (lists es) → IsNormal (block es)
block-IsNormal [] h = tt
block-IsNormal (words ws ∷ es) (filled, h) =
    (filled, all_data-scalars ws, scalars-IsNormal ws, block-IsNormal es h)
block-IsNormal (word w ∷ es) h = (tt, block-IsNormal es h)

data_children-block : (es : List Entry) → data_children (block es) ≡ scalars (texts es) null
unfolding data_children
data_children-block [] = refl
data_children-block (words ws ∷ es) = data_children-block es
data_children-block (word w ∷ es) = rw (data_children-block es)

moved-block :
    (done : List (List Bytes)) (es : List Entry)
    → moved (block (map words done)) (block es) ≡ block (map words (last_first done (lists es)))
unfolding moved
moved-block done [] = refl
moved-block done (words ws ∷ es) = moved-block (ws ∷ done) es
moved-block done (word w ∷ es) = moved-block done es

-- The entries of the block that the handler gets.
abbrev simplified : List Bytes → List (List Bytes) → List Entry
simplified [] wss = map words wss
simplified (t ∷ ts) wss = words (t ∷ ts) ∷ map words wss

append_node-simplified :
    (ts : List Bytes) (wss : List (List Bytes))
    → append_node (unless_empty (scalars ts null) null) (block (map words wss))
      ≡ block (simplified ts wss)
unfolding append_node unless_empty
append_node-simplified [] wss = refl
append_node-simplified (t ∷ ts) wss = refl

command_lines-lists : (wss : List (List Bytes)) → command_lines [] (map words wss) ≡ map join wss
command_lines-lists [] = refl
command_lines-lists (ws ∷ wss) = rw (command_lines-lists wss)

command_lines-simplified :
    (ts : List Bytes) (wss : List (List Bytes))
    → command_lines [] (simplified ts wss) ≡ executed ts wss
command_lines-simplified [] wss = command_lines-lists wss
command_lines-simplified (t ∷ ts) wss = rw (command_lines-lists wss)

-- The children that the block has after the simplification.
simplify-block :
    (es : List Entry)
    → AllFilled (lists es)
    → let nodes = append_node (simplify (block es)).0 (simplify (block es)).1 in
      append_node (unless_empty (data_children nodes) null) (append_node (moved null nodes) null)
      ≡ block (simplified (texts es) (last_first [] (lists es)))
simplify-block es h = rw (simplify_normal (block es) (block-IsNormal es h)) (
    rw (append_node-null (block es)) (
      rw (data_children-block es, moved-block [] es)
        (rw (append_node-null (block (map words (last_first [] (lists es)))))
          (rw (append_node-simplified (texts es) (last_first [] (lists es)))))))

-- The file's tree.
read_userdata-runcmd :
    (es : List Entry) (filename : Bytes)
    → AllFilled (lists es)
    → read_userdata (file_events (entry_list (str "runcmd") (items_of es) end)) filename
      ≡ gnode
          (some filename)
          (gnode none
            (gnode
              (some (str "runcmd"))
              (block (simplified (texts es) (last_first [] (lists es))))
              null)
            null)
          null
unfolding read_userdata entry_nodes simplify data_children moved unless_empty append_node
read_userdata-runcmd es filename h =
    let doc = entry_list (str "runcmd") (items_of es) end in
    rw
      (
        read_userdata,
        parse_file_document doc (suc (length (file_events doc))) filename
            (omega (arith, length-entry_events doc (mapping_end ∷ (ignored ∷ (stream_end ∷ []))))),
      )
      (rw (item_nodes-items_of es) (rw (simplify-block es h)))

find_runcmd :
    find_handler (some (str "runcmd")) (prepend_all cc_module_structs []) ≡ some runcmd_handler
unfolding find_handler prepend_all cc_module_structs str str_eq
find_runcmd = refl

-- A file whose document is a `runcmd` block, with texts and with lists of words that are not empty, in
-- any order: first one command is run that all texts make up together, if there are any, and then one
-- for each list, the last list of the file first. Nothing else is done with the tree.
pub process-runcmd :
    (os : Os) (es : List Entry) (filename : Bytes)
    → AllFilled (lists es)
    → Runs os itself
        (cloud_config_process os
          (prepend_all cc_module_structs [])
          (read_userdata (file_events (entry_list (str "runcmd") (items_of es) end)) filename))
        (executed (texts es) (last_first [] (lists es)))
unfolding cloud_config_process process_blocks run_handler
process-runcmd os es filename h =
    let wss = last_first [] (lists es) in
    rw (read_userdata-runcmd es filename h) (
      rw find_runcmd (
        rw (command_lines-simplified (texts es) wss) at
          (runcmd_handler-Runs os (some (str "runcmd")) (simplified (texts es) wss) null)))
