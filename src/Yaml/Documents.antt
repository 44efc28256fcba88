-- ===== src/Yaml/Documents.antt =====
-- The trees of documents: what `cloud_config_parse` builds from the events of a document.
pub mod Shapes
use micro_config_drive.Base.{
  length, ℕ, zero, suc, ◌+◌, ◌≤◌, Bytes, none, some, List, [], ◌∷◌, Bool, true, false, ◌≡◌, refl,
  arith,
}
use micro_config_drive.GNode.{
  GNode, null, gnode, leaf, append_node, below_last, append_node_assoc, append_node-null,
  below_last-append_node,
}
use micro_config_drive.Yaml.{
  Event, scalar, sequence_start, sequence_end, mapping_start, mapping_end, stream_end, ignored,
  Frame, State, in_sequence, in_mapping, frame, on_scalar, on_sequence, on_mapping, Outcome, parse,
  parse_file,
}
pub use micro_config_drive.Yaml.Documents.Shapes.{
  Items, nil, text, list, table, Entries, end, entry, entry_list, file_events, length-entry_events,
}
unfoldable pub use micro_config_drive.Yaml.Documents.Shapes.{
  item_events, entry_events, item_nodes, entry_nodes, item_size, entry_size,
}

-- A frame that has got more nodes.
abbrev with_nodes : State → Bool → GNode → GNode → Frame
with_nodes s b kids nodes = record { kids = append_node kids nodes; at_last = b; state = s }

-- Whatever fuel of at least `m` is left, the parser comes from the events behind some nodes to `o`.
abbrev Continues : State → GNode → GNode → List Event → Outcome → ℕ → Type 0
Continues s kids nodes rest o m =
    (g : ℕ) (b : Bool) → m ≤ g → parse g rest (with_nodes s b kids nodes) ≡ some o

close_sequence :
    (s : State) (kids nodes : GNode) (rest : List Event)
    → Continues s kids nodes
        (sequence_end ∷ rest)
        (record { succeeded = true; built = append_node kids nodes; rest = rest })
        1
unfolding parse
close_sequence s kids nodes rest zero b h = absurd (omega arith)
close_sequence s kids nodes rest (suc g) b h = refl

close_mapping :
    (s : State) (kids nodes : GNode) (rest : List Event)
    → Continues s kids nodes
        (mapping_end ∷ rest)
        (record { succeeded = true; built = append_node kids nodes; rest = rest })
        1
unfolding parse
close_mapping s kids nodes rest zero b h = absurd (omega arith)
close_mapping s kids nodes rest (suc g) b h = refl

mutual
  unfolding parse item_events item_nodes item_size on_scalar on_sequence on_mapping append_node

  parse_items :
      (is : Items) (kids : GNode) (b : Bool) (rest : List Event) (o : Outcome) (m fuel : ℕ)
      → Continues in_sequence kids (item_nodes is) rest o m
      → item_size is + m ≤ fuel
      → parse fuel (item_events is rest) (record { kids = kids; at_last = b; state = in_sequence })
        ≡ some o
  parse_items nil kids b rest o m fuel k h = rw (append_node-null kids) at (k fuel b (omega arith))
  parse_items (text t is) kids b rest o m zero k h = absurd (omega arith)
  parse_items (text t is) kids b rest o m (suc fuel) k h =
      parse_items is (append_node kids (leaf t)) true rest o m fuel
        (λ g b' hg. rw (append_node_assoc kids (leaf t) (item_nodes is)) (k g b' hg)) (omega arith)
  parse_items (list js is) kids b rest o m zero k h = absurd (omega arith)
  parse_items (list js is) kids b rest o m (suc fuel) k h =
      rw
        (parse_items js null false (sequence_end ∷ item_events is rest)
          (record { succeeded = true; built = item_nodes js; rest = item_events is rest }) 1 fuel
          (close_sequence in_sequence null (item_nodes js) (item_events is rest)) (omega arith))
        (parse_items is (append_node kids (gnode none (item_nodes js) null)) false rest o m fuel
          (λ g b' hg.
            rw (append_node_assoc kids (gnode none (item_nodes js) null) (item_nodes is))
              (k g b' hg))
          (omega arith))
  parse_items (table es is) kids b rest o m zero k h = absurd (omega arith)
  parse_items (table es is) kids b rest o m (suc fuel) k h =
      rw
        (parse_entries es null false (mapping_end ∷ item_events is rest)
          (record { succeeded = true; built = entry_nodes es; rest = item_events is rest }) 1 fuel
          (close_mapping in_mapping null (entry_nodes es) (item_events is rest)) (omega arith))
        (parse_items is (append_node kids (gnode none (entry_nodes es) null)) false rest o m fuel
          (λ g b' hg.
            rw (append_node_assoc kids (gnode none (entry_nodes es) null) (item_nodes is))
              (k g b' hg))
          (omega arith))

  parse_entries :
      (es : Entries) (kids : GNode) (b : Bool) (rest : List Event) (o : Outcome) (m fuel : ℕ)
      → Continues in_mapping kids (entry_nodes es) rest o m
      → entry_size es + m ≤ fuel
      → parse fuel (entry_events es rest) (record { kids = kids; at_last = b; state = in_mapping })
        ≡ some o
  parse_entries end kids b rest o m fuel k h =
      rw (append_node-null kids) at (k fuel b (omega arith))
  parse_entries (entry x v es) kids b rest o m zero k h = absurd (omega arith)
  parse_entries (entry x v es) kids b rest o m (suc zero) k h = absurd (omega arith)
  parse_entries (entry x v es) kids b rest o m (suc (suc fuel)) k h =
      rw (below_last-append_node kids (leaf v) (some x) null) (
        parse_entries es (append_node kids (gnode (some x) (leaf v) null)) true rest o m fuel
          (λ g b' hg.
            rw (append_node_assoc kids (gnode (some x) (leaf v) null) (entry_nodes es)) (k g b' hg))
          (omega arith))
  parse_entries (entry_list x is es) kids b rest o m zero k h = absurd (omega arith)
  parse_entries (entry_list x is es) kids b rest o m (suc zero) k h = absurd (omega arith)
  parse_entries (entry_list x is es) kids b rest o m (suc (suc fuel)) k h =
      rw
        (parse_items is null false (sequence_end ∷ entry_events es rest)
          (record { succeeded = true; built = item_nodes is; rest = entry_events es rest }) 1 fuel
          (close_sequence in_sequence null (item_nodes is) (entry_events es rest)) (omega arith))
        (rw (below_last-append_node kids (gnode none (item_nodes is) null) (some x) null) (
          parse_entries es
            (append_node kids (gnode (some x) (gnode none (item_nodes is) null) null)) true rest o m
            fuel
            (λ g b' hg.
              rw
                (append_node_assoc kids (gnode (some x) (gnode none (item_nodes is) null) null)
                  (entry_nodes es))
                (k g b' hg))
            (omega arith)))

-- The parser builds the tree of every document whose mappings have texts and sequences of any depth
-- for values: given fuel for the document's events and the six around them, the root holds the
-- file's name and one node, and below that the entries, each key with its value as its only child.
pub parse_file_document :
    (es : Entries) (fuel : ℕ) (filename : Bytes)
    → entry_size es + 6 ≤ fuel
    → parse_file fuel filename (
        ignored
        ∷ (ignored
            ∷ (mapping_start ∷ entry_events es (mapping_end ∷ (ignored ∷ (stream_end ∷ []))))))
      ≡ some (gnode (some filename) (gnode none (entry_nodes es) null) null)
unfolding parse_file parse on_mapping append_node
parse_file_document es zero filename h = absurd (omega arith)
parse_file_document es (suc zero) filename h = absurd (omega arith)
parse_file_document es (suc (suc zero)) filename h = absurd (omega arith)
parse_file_document es (suc (suc (suc zero))) filename h = absurd (omega arith)
parse_file_document es (suc (suc (suc (suc zero)))) filename h = absurd (omega arith)
parse_file_document es (suc (suc (suc (suc (suc g))))) filename h = rw (
  parse_file,
  parse_entries es null false (mapping_end ∷ (ignored ∷ (stream_end ∷ [])))
      (record { succeeded = true; built = entry_nodes es; rest = ignored ∷ (stream_end ∷ []) }) 1
      (suc (suc g)) (close_mapping in_mapping null (entry_nodes es) (ignored ∷ (stream_end ∷ [])))
      (omega arith),
)

-- A mapping for a value of a mapping is not below its key, and its presence moves what comes next:
-- in a mapping of `k`, which has the mapping of `a` to `b` for its value, and of `x` to `y`, the four
-- nodes `k`, the mapping, `x` and `y` are siblings, and none of the three texts has a child.
pub parse_mapping_value :
    (k a b x y : Bytes) (rest : List Event) (fuel : ℕ)
    → parse
        (suc (suc (suc (suc (suc fuel)))))
        (scalar k
          ∷ (mapping_start
              ∷ (scalar a
                  ∷ (scalar b ∷ (mapping_end ∷ (scalar x ∷ (scalar y ∷ (mapping_end ∷ rest))))))))
        (frame in_mapping)
      ≡ some (record {
        succeeded = true;
        built =
            gnode
              (some k)
              null
              (gnode none (gnode (some a) (leaf b) null) (gnode (some x) null (leaf y)));
        rest = rest;
      })
unfolding parse on_scalar on_mapping append_node below_last
parse_mapping_value k a b x y rest fuel = refl
