-- ===== src/Json/Shape.antt =====
-- The shape of the trees that `json_parse` makes.
use micro_config_drive.Base.{none, some, Bool, true, false, if◌then◌else◌, ◌≡◌, refl}
use micro_config_drive.GNode.{GNode, null, gnode, append_node}
use micro_config_drive.Json.{
  JsonNode, Members, Elements, object, array, value, null_node, no_member, member, no_element,
  element, json_parse, parse_members, parse_elements, json_string, key_node, null_leaf,
}

-- A node without data has no children: it only separates its siblings. Every other node is a key with its
-- value, or a text.
abbrev pub IsShaped : GNode → Type 0
IsShaped null = Unit {0}
IsShaped (gnode none below next) = (below ≡ null) × IsShaped next
IsShaped (gnode (some text) below next) = IsShaped below × IsShaped next

append_node-IsShaped : (a b : GNode) → IsShaped a → IsShaped b → IsShaped (append_node a b)
unfolding append_node
append_node-IsShaped null b p q = q
append_node-IsShaped (gnode none below next) b (e, p) q = (e, append_node-IsShaped next b p q)
append_node-IsShaped (gnode (some text) below next) b (d, p) q =
    (d, append_node-IsShaped next b p q)

separator : (b : Bool) → IsShaped (if b then null_leaf else null)
separator true = (refl, tt)
separator false = tt

mutual
  unfolding json_parse parse_members parse_elements

  node-IsShaped :
      (j : JsonNode) (b : Bool) (below : GNode) → IsShaped below → IsShaped (json_parse j b below)
  node-IsShaped (object ms) b below p =
      members-IsShaped ms _ (append_node-IsShaped below null_leaf p (refl, tt))
  node-IsShaped (array es) b below p = elements-IsShaped es below p
  node-IsShaped (value v) b below p =
      append_node-IsShaped below (key_node (json_string v) (if b then null_leaf else null)) p
        (separator b, tt)
  node-IsShaped null_node b below p = p

  members-IsShaped :
      (ms : Members) (below : GNode) → IsShaped below → IsShaped (parse_members ms below)
  members-IsShaped no_member below p = p
  members-IsShaped (member key v ms) below p = members-IsShaped ms _ (
      append_node-IsShaped below (key_node key (json_parse v false null)) p
        (node-IsShaped v false null tt, tt))

  elements-IsShaped :
      (es : Elements) (below : GNode) → IsShaped below → IsShaped (parse_elements es below)
  elements-IsShaped no_element below p = p
  elements-IsShaped (element e es) below p = elements-IsShaped es _ (node-IsShaped e true below p)

-- In the tree of any document, at any depth, a node without data has no children.
pub json_parse-IsShaped : (j : JsonNode) (b : Bool) → IsShaped (json_parse j b null)
json_parse-IsShaped j b = node-IsShaped j b null tt
