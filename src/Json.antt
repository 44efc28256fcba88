-- ===== src/Json.antt =====
-- src/json.c: the tree of a JSON document. The document is what the accessors of json-glib tell of it.
pub mod Roundtrip
pub mod Flat
pub mod Shape
use micro_config_drive.Base.{
  ℕ, zero, suc, ◌+◌, ◌-◌, ◌/◌, ◌%◌, ◌^◌, Bytes, str, none, some, List, [], ◌∷◌, ◌++◌, Bool, true,
  false, ltb, if◌then◌else◌,
}
use micro_config_drive.GNode.{GNode, null, gnode, append_node}

-- A value with its type: `json_node_get_value_type` and the getter of that type. An integer is the bit
-- pattern of a `gint64`, and a number with a fraction is the text that `%f` prints of it. The parser of
-- json-glib gives integers the type `G_TYPE_INT64`.
pub data JsonValue : Type 0 where
  string : Bytes → JsonValue
  int : ℕ → JsonValue
  double : Bytes → JsonValue
  boolean : Bool → JsonValue
  int64 : ℕ → JsonValue

-- The members of an object and the elements of an array are in the order of the file. The root of an
-- empty file is `null_node`.
mutual
  pub data JsonNode : Type 0 where
    object : Members → JsonNode
    array : Elements → JsonNode
    value : JsonValue → JsonNode
    null_node : JsonNode

  pub data Members : Type 0 where
    no_member : Members
    member : Bytes → JsonNode → Members → Members

  pub data Elements : Type 0 where
    no_element : Elements
    element : JsonNode → Elements → Elements

-- The decimal digits of a number, of at most as many as the fuel.
unfoldable pub digits : ℕ → ℕ → Bytes
digits zero n = []
digits (suc fuel) n =
    let rest = digits fuel (n / 10) in
    let last : ℕ = b'0' + n % 10 in (if ltb n 10 then [] else rest) ++ (last ∷ [])

-- `%d` of the conversion to `int`: the low 32 bits, in two's complement. Ten digits are enough.
unfoldable pub show_int : ℕ → Bytes
unfolding digits
show_int n =
    let low = n % 2 ^ 32 in
    if ltb low (2 ^ 31) then digits 10 low else b'-' ∷ digits 10 (2 ^ 32 - low)

unfoldable pub json_string : JsonValue → Bytes
unfolding show_int
json_string (string text) = text
json_string (int n) = show_int n
json_string (double text) = text
json_string (boolean b) = if b then str "true" else str "false"
json_string (int64 n) = str "Unknown type"

-- A node with data, and below it the nodes that are given.
abbrev pub key_node : Bytes → GNode → GNode
key_node key below = gnode (some key) below null

abbrev pub null_leaf : GNode
null_leaf = gnode none null null

-- `json_parse` on a node that has the children `below`: the children that it has then. Inside an object
-- `node` is the key appended last, and `node->parent` the node that was given.
unfoldable mutual
  pub json_parse : JsonNode → Bool → GNode → GNode
  json_parse (object ms) parsing_array below = parse_members ms (append_node below null_leaf)
  json_parse (array es) parsing_array below = parse_elements es below
  json_parse (value v) parsing_array below =
      append_node below (key_node (json_string v) (if parsing_array then null_leaf else null))
  json_parse null_node parsing_array below = below

  pub parse_members : Members → GNode → GNode
  parse_members no_member below = below
  parse_members (member key v ms) below =
      parse_members ms (append_node below (key_node key (json_parse v false null)))

  pub parse_elements : Elements → GNode → GNode
  parse_elements no_element below = below
  parse_elements (element e es) below = parse_elements es (json_parse e true below)
