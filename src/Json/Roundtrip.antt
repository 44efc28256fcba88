-- ===== src/Json/Roundtrip.antt =====
-- Documents that can be read back from their tree: objects of texts and of such objects.
use micro_config_drive.Base.{Bytes, none, some, false, ◌≡◌, refl, ap, ◌∙◌}
use micro_config_drive.GNode.{GNode, null, gnode, append_node}
use micro_config_drive.Json.{
  JsonNode, Members, object, value, null_node, no_member, member, string, json_parse, parse_members,
  json_string,
}
use micro_config_drive.Json.Flat.{json_parse-object, parse_members-member}

mutual
  pub data IsPlain : JsonNode → Type 0 where
    plain_text : (text : Bytes) → IsPlain (value (string text))
    plain_object : (ms : Members) → ArePlain ms → IsPlain (object ms)

  pub data ArePlain : Members → Type 0 where
    plain_none : ArePlain no_member
    plain_member :
        (key : Bytes) (v : JsonNode) (ms : Members)
        → IsPlain v
        → ArePlain ms
        → ArePlain (member key v ms)

-- The document below a key, and the members of a list of keys.
unfoldable mutual
  pub read_value : GNode → JsonNode
  read_value null = null_node
  read_value (gnode (some text) below next) = value (string text)
  read_value (gnode none below next) = object (read_members next)

  pub read_members : GNode → Members
  read_members null = no_member
  read_members (gnode none below next) = read_members next
  read_members (gnode (some key) below next) = member key (read_value below) (read_members next)

mutual
  unfolding read_value read_members json_parse json_string append_node

  value_back : (j : JsonNode) → IsPlain j → read_value (json_parse j false null) ≡ j
  value_back _ (plain_text text) = refl
  value_back _ (plain_object ms p) =
      ap read_value (json_parse-object ms false) ∙ ap object (members_back ms p)

  members_back : (ms : Members) → ArePlain ms → read_members (parse_members ms null) ≡ ms
  members_back _ plain_none = refl
  members_back _ (plain_member key v ms p q) =
      ap read_members (parse_members-member key v ms)
      ∙ ap (λ (x : JsonNode). member key x (read_members (parse_members ms null))) (value_back v p)
      ∙ ap (member key v) (members_back ms q)

-- A document of objects and texts, nested to any depth, is read back from the tree that `json_parse` makes
-- of it.
pub read_value-json_parse : (j : JsonNode) → IsPlain j → read_value (json_parse j false null) ≡ j
read_value-json_parse = value_back
