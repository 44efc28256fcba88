-- ===== src/GNode.antt =====
-- The n-ary trees of user data and metadata (GLib's `GNode`), as their pointers: a node has its data
-- (a string or NULL), its first child and its next sibling. A pointer reaches the siblings behind it.
use micro_config_drive.Base.{Bytes, Option, none, some, List, [], ◌∷◌, ◌++◌, ◌≡◌, refl}

pub data GNode : Type 0 where
  null : GNode
  gnode : Option Bytes → GNode → GNode → GNode

-- `node->data`, `node->children`; a null pointer has neither.
abbrev pub node_data : GNode → Option Bytes
node_data null = none
node_data (gnode d c n) = d

abbrev pub children : GNode → GNode
children null = null
children (gnode d c n) = c

-- The leaves below the nodes of a list of siblings, left to right.
unfoldable pub forest_leaves : GNode → List (Option Bytes)
forest_leaves null = []
forest_leaves (gnode d null n) = d ∷ forest_leaves n
forest_leaves (gnode d (gnode d' c' n') n) = forest_leaves (gnode d' c' n') ++ forest_leaves n

-- What `g_node_traverse (node, G_IN_ORDER, G_TRAVERSE_LEAVES, -1, f, data)` calls `f` on: a node
-- with no child is a leaf itself.
unfoldable pub leaves : GNode → List (Option Bytes)
unfolding forest_leaves
leaves null = []
leaves (gnode d null n) = d ∷ []
leaves (gnode d (gnode d' c' n') n) = forest_leaves (gnode d' c' n')

-- A node with data and no children.
abbrev pub leaf : Bytes → GNode
leaf text = gnode (some text) null null

-- The siblings with more of them at their end: `g_node_append` on the parent.
unfoldable pub append_node : GNode → GNode → GNode
append_node null x = x
append_node (gnode d c n) x = gnode d c (append_node n x)

-- `g_node_append` on the last of the siblings.
unfoldable pub below_last : GNode → GNode → GNode
unfolding append_node
below_last null x = x
below_last (gnode d c null) x = gnode d (append_node c x) null
below_last (gnode d c (gnode d' c' n')) x = gnode d c (below_last (gnode d' c' n') x)

pub append_node_assoc :
    (a b c : GNode) → append_node (append_node a b) c ≡ append_node a (append_node b c)
unfolding append_node
append_node_assoc null b c = refl
append_node_assoc (gnode d k n) b c = rw (append_node_assoc n b c)

pub append_node-null : (a : GNode) → append_node a null ≡ a
unfolding append_node
append_node-null null = refl
append_node-null (gnode d k n) = rw (append_node-null n)

-- Below the node that was appended last.
pub below_last-append_node :
    (a x : GNode) (d : Option Bytes) (c : GNode)
    → below_last (append_node a (gnode d c null)) x ≡ append_node a (gnode d (append_node c x) null)
unfolding below_last
below_last-append_node null x d c = refl
below_last-append_node (gnode d' c' null) x d c = refl
below_last-append_node (gnode d' c' (gnode d'' c'' n)) x d c =
    rw (below_last-append_node (gnode d'' c'' n) x d c)
