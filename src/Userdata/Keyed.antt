-- ===== src/Userdata/Keyed.antt =====
-- Documents with one block, a list of mappings of one key to a list of texts.
use micro_config_drive.Base.{Bytes, none, some, List, [], ◌∷◌, map, ◌≡◌, refl}
use micro_config_drive.GNode.{GNode, null, gnode}
use micro_config_drive.Yaml.Documents.{
  Items, nil, text, table, end, entry_list, item_nodes, entry_nodes, file_events,
}
use micro_config_drive.Modules.Users.Options.{group_nodes}
use micro_config_drive.Userdata.{read_userdata}
use micro_config_drive.Userdata.Runcmd.{text_items, last_first}
use micro_config_drive.Userdata.Blocks.{list_nodes, AllNormal, last_first-map, read_userdata-list}
use micro_config_drive.Userdata.Accounts.{item_nodes-group_nodes, group_nodes-IsNormal}

-- A key, with the first text of its list and the others.
pub record Keyed : Type 0 where
  pub key : Bytes
  pub first : Bytes
  pub others : List Bytes

abbrev pub keyed_items : List Keyed → Items
keyed_items [] = nil
keyed_items (k ∷ ks) =
    table (entry_list k.key (text k.first (text_items k.others)) end) (keyed_items ks)

abbrev pub keyed_node : Keyed → GNode
keyed_node k = gnode (some k.key) (gnode none (group_nodes k.first k.others) null) null

item_nodes-keyed : (ks : List Keyed) → item_nodes (keyed_items ks) ≡ list_nodes (map keyed_node ks)
unfolding item_nodes entry_nodes
item_nodes-keyed [] = refl
item_nodes-keyed (k ∷ ks) = rw (item_nodes-group_nodes k.first k.others, item_nodes-keyed ks) refl

keyed_node-AllNormal : (ks : List Keyed) → AllNormal (map keyed_node ks)
keyed_node-AllNormal [] = tt
keyed_node-AllNormal (k ∷ ks) =
    let (filled, all, normal) = group_nodes-IsNormal k.first k.others in
    ((refl, refl, ((filled, all, normal, tt), tt)), keyed_node-AllNormal ks)

-- The tree of the document: the mappings, the last one first.
pub read_userdata-keyed :
    (name : Bytes) (ks : List Keyed) (filename : Bytes)
    → read_userdata (file_events (entry_list name (keyed_items ks) end)) filename
      ≡ gnode
          (some filename)
          (gnode none
            (gnode (some name) (list_nodes (map keyed_node (last_first [] ks))) null)
            null)
          null
read_userdata-keyed name ks filename = rw (← last_first-map keyed_node [] ks) (
    read_userdata-list name (keyed_items ks) (map keyed_node ks) filename (item_nodes-keyed ks)
      (keyed_node-AllNormal ks))
