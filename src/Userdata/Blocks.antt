-- ===== src/Userdata/Blocks.antt =====
-- Documents with one block, a list of mappings: the tree that its handler gets.
use micro_config_drive.Base.{
  suc, Bytes, length, none, some, List, [], ◌∷◌, map, true, ◌≡◌, refl, arith,
}
use micro_config_drive.GNode.{GNode, null, gnode, append_node, append_node-null}
use micro_config_drive.Yaml.{ignored, mapping_end, stream_end}
use micro_config_drive.Yaml.Documents.{
  Items, end, entry_list, item_nodes, entry_nodes, file_events, length-entry_events,
  parse_file_document,
}
use micro_config_drive.Simplify.{data_children, moved, unless_empty, simplify}
use micro_config_drive.Simplify.Normal.{IsNormal, all_data, some_node, simplify_normal}
use micro_config_drive.Userdata.{read_userdata}
use micro_config_drive.Userdata.Runcmd.{last_first}

-- The nodes of a list of mappings, by the nodes of each.
abbrev pub list_nodes : List GNode → GNode
list_nodes [] = null
list_nodes (c ∷ cs) = gnode none c (list_nodes cs)

-- No mapping is empty, and each is in the form that the simplification leaves.
abbrev pub AllNormal : List GNode → Type 0
AllNormal [] = Unit
AllNormal (c ∷ cs) = ((some_node c ≡ true) × (all_data c ≡ true) × IsNormal c) × AllNormal cs

pub last_first-map :
    {A B : Type 0} (f : A → B) (done xs : List A)
    → last_first (map f done) (map f xs) ≡ map f (last_first done xs)
last_first-map f done [] = refl
last_first-map f done (x ∷ xs) = last_first-map f (x ∷ done) xs

list_nodes-IsNormal : (cs : List GNode) → AllNormal cs → IsNormal (list_nodes cs)
list_nodes-IsNormal [] h = tt
list_nodes-IsNormal (c ∷ cs) ((filled, d, normal), h) =
    (filled, d, normal, list_nodes-IsNormal cs h)

data_children-list : (cs : List GNode) → data_children (list_nodes cs) ≡ null
unfolding data_children
data_children-list [] = refl
data_children-list (c ∷ cs) = data_children-list cs

moved-list :
    (done cs : List GNode)
    → moved (list_nodes done) (list_nodes cs) ≡ list_nodes (last_first done cs)
unfolding moved
moved-list done [] = refl
moved-list done (c ∷ cs) = moved-list (c ∷ done) cs

-- The children that the block has after the simplification.
simplify-list :
    (cs : List GNode)
    → AllNormal cs
    → let nodes = append_node (simplify (list_nodes cs)).0 (simplify (list_nodes cs)).1 in
      append_node (unless_empty (data_children nodes) null) (append_node (moved null nodes) null)
      ≡ list_nodes (last_first [] cs)
unfolding unless_empty append_node
simplify-list cs h = rw (simplify_normal (list_nodes cs) (list_nodes-IsNormal cs h)) (
    rw (append_node-null (list_nodes cs)) (
      rw (data_children-list cs, moved-list [] cs)
        (append_node-null (list_nodes (last_first [] cs)))))

-- The tree of a document with one block: the mappings of its list, the last one first.
pub read_userdata-list :
    (key : Bytes) (items : Items) (cs : List GNode) (filename : Bytes)
    → item_nodes items ≡ list_nodes cs
    → AllNormal cs
    → read_userdata (file_events (entry_list key items end)) filename
      ≡ gnode
          (some filename)
          (gnode none (gnode (some key) (list_nodes (last_first [] cs)) null) null)
          null
unfolding read_userdata entry_nodes simplify data_children moved unless_empty append_node
read_userdata-list key items cs filename e h =
    let doc = entry_list key items end in
    rw
      (
        read_userdata,
        parse_file_document doc (suc (length (file_events doc))) filename
            (omega (arith, length-entry_events doc (mapping_end ∷ (ignored ∷ (stream_end ∷ []))))),
      )
      (rw e (rw (simplify-list cs h)))
