-- ===== src/Simplify.antt =====
-- `cloud_config_simplify` of src/interpreters/cloud_config.c, which `cloud_config_main` calls on every
-- node of the tree, children first.
pub mod Normal
pub mod Texts
use micro_config_drive.Base.{Bytes, Option, none, some}
use micro_config_drive.GNode.{GNode, null, gnode, append_node}

-- The children with data: those that stay.
unfoldable pub data_children : GNode → GNode
data_children null = null
data_children (gnode (some d) c n) = gnode (some d) c (data_children n)
data_children (gnode none c n) = data_children n

-- The children without data, last one first: they go to the end of the parent's children.
unfoldable pub moved : GNode → GNode → GNode
moved up null = up
moved up (gnode (some d) c n) = moved up n
moved up (gnode none c n) = moved (gnode none c up) n

-- The node itself is removed if no child stays.
unfoldable pub unless_empty : GNode → GNode → GNode
unless_empty null rest = rest
unless_empty (gnode d c n) rest = gnode none (gnode d c n) rest

-- A list of siblings after the calls on all below them and on themselves: those that stay in their
-- places, and those that have been moved to the end of the list. `g_node_traverse` comes to the latter
-- once more; they are in the form of `IsNormal` then, on which a call changes nothing.
unfoldable pub simplify : GNode → GNode × GNode
unfolding append_node data_children moved unless_empty
simplify null = (null, null)
simplify (gnode (some d) c n) =
    let (below, up) = simplify c in
    let (kept, behind) = simplify n in (gnode (some d) (append_node below up) kept, behind)
simplify (gnode none c n) =
    let (below, up) = simplify c in
    let (kept, behind) = simplify n in
    let nodes = append_node below up in
    (unless_empty (data_children nodes) kept, append_node (moved null nodes) behind)
