-- ===== src/Json/Flat.antt =====
-- What `json_parse` appends is independent of what is there.
use micro_config_drive.Base.{Bytes, none, some, Bool, true, false, ◌≡◌, refl, sym, ap, ◌∙◌}
use micro_config_drive.GNode.{GNode, null, gnode, append_node, append_node_assoc, append_node-null}
use micro_config_drive.Json.{
  JsonNode, Members, Elements, object, array, value, null_node, no_member, member, no_element,
  element, json_parse, parse_members, parse_elements, null_leaf, key_node,
}

mutual
  unfolding json_parse parse_members parse_elements append_node

  pub json_parse-append :
      (j : JsonNode) (b : Bool) (below : GNode)
      → json_parse j b below ≡ append_node below (json_parse j b null)
  json_parse-append (object ms) b below =
      parse_members-append ms (append_node below null_leaf)
      ∙ append_node_assoc below null_leaf (parse_members ms null)
      ∙ ap (append_node below) (sym (parse_members-append ms null_leaf))
  json_parse-append (array es) b below = parse_elements-append es below
  json_parse-append (value v) b below = refl
  json_parse-append null_node b below = sym (append_node-null below)

  pub parse_members-append :
      (ms : Members) (below : GNode)
      → parse_members ms below ≡ append_node below (parse_members ms null)
  parse_members-append no_member below = sym (append_node-null below)
  parse_members-append (member key v ms) below =
      let head = key_node key (json_parse v false null) in
      parse_members-append ms (append_node below head)
      ∙ append_node_assoc below head (parse_members ms null)
      ∙ ap (append_node below) (sym (parse_members-append ms head))

  pub parse_elements-append :
      (es : Elements) (below : GNode)
      → parse_elements es below ≡ append_node below (parse_elements es null)
  parse_elements-append no_element below = sym (append_node-null below)
  parse_elements-append (element e es) below =
      let head = json_parse e true null in
      parse_elements-append es (json_parse e true below)
      ∙ ap (λ (x : GNode). append_node x (parse_elements es null)) (json_parse-append e true below)
      ∙ append_node_assoc below head (parse_elements es null)
      ∙ ap (append_node below) (sym (parse_elements-append es head))

-- The first key with its value, in front of the keys behind it.
pub parse_members-member :
    (key : Bytes) (v : JsonNode) (ms : Members)
    → parse_members (member key v ms) null
      ≡ gnode (some key) (json_parse v false null) (parse_members ms null)
unfolding parse_members append_node
parse_members-member key v ms = parse_members-append ms (key_node key (json_parse v false null))

-- An object in a list of siblings: a node without data, and the keys behind it.
pub json_parse-object :
    (ms : Members) (b : Bool)
    → json_parse (object ms) b null ≡ gnode none null (parse_members ms null)
unfolding json_parse append_node
json_parse-object ms b = parse_members-append ms null_leaf

pub parse_elements-element :
    (e : JsonNode) (es : Elements)
    → parse_elements (element e es) null
      ≡ append_node (json_parse e true null) (parse_elements es null)
unfolding parse_elements
parse_elements-element e es = parse_elements-append es (json_parse e true null)
