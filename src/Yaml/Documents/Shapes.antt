-- ===== src/Yaml/Documents/Shapes.antt =====
-- Documents: their events and their trees.
use micro_config_drive.Base.{length, ℕ, suc, ◌+◌, Bytes, none, some, List, [], ◌∷◌, ◌≡◌, arith}
use micro_config_drive.GNode.{GNode, null, gnode, leaf}
use micro_config_drive.Yaml.{
  Event, scalar, sequence_start, sequence_end, mapping_start, mapping_end, stream_end, ignored,
}

-- Documents whose mappings have texts and sequences for values: the contents of a sequence, and the
-- entries of a mapping.
mutual
  pub data Items : Type 0 where
    nil : Items
    text : Bytes → Items → Items
    list : Items → Items → Items
    table : Entries → Items → Items

  pub data Entries : Type 0 where
    end : Entries
    entry : Bytes → Bytes → Entries → Entries
    entry_list : Bytes → Items → Entries → Entries

-- The events of a document, in front of those that follow.
unfoldable mutual
  pub item_events : Items → List Event → List Event
  item_events nil rest = rest
  item_events (text t is) rest = scalar t ∷ item_events is rest
  item_events (list js is) rest =
      sequence_start ∷ item_events js (sequence_end ∷ item_events is rest)
  item_events (table es is) rest =
      mapping_start ∷ entry_events es (mapping_end ∷ item_events is rest)

  pub entry_events : Entries → List Event → List Event
  entry_events end rest = rest
  entry_events (entry k v es) rest = scalar k ∷ (scalar v ∷ entry_events es rest)
  entry_events (entry_list k is es) rest =
      scalar k ∷ (sequence_start ∷ item_events is (sequence_end ∷ entry_events es rest))

-- The tree of a document: a key is a node with its value below it, a sequence or a mapping in a
-- sequence is a node without data.
unfoldable mutual
  pub item_nodes : Items → GNode
  item_nodes nil = null
  item_nodes (text t is) = gnode (some t) null (item_nodes is)
  item_nodes (list js is) = gnode none (item_nodes js) (item_nodes is)
  item_nodes (table es is) = gnode none (entry_nodes es) (item_nodes is)

  pub entry_nodes : Entries → GNode
  entry_nodes end = null
  entry_nodes (entry k v es) = gnode (some k) (leaf v) (entry_nodes es)
  entry_nodes (entry_list k is es) =
      gnode (some k) (gnode none (item_nodes is) null) (entry_nodes es)

-- The number of events of a document.
unfoldable mutual
  pub item_size : Items → ℕ
  item_size nil = 0
  item_size (text t is) = suc (item_size is)
  item_size (list js is) = suc (suc (item_size js + item_size is))
  item_size (table es is) = suc (suc (entry_size es + item_size is))

  pub entry_size : Entries → ℕ
  entry_size end = 0
  entry_size (entry k v es) = suc (suc (entry_size es))
  entry_size (entry_list k is es) = suc (suc (suc (item_size is + entry_size es)))

-- The number of events is the size.
mutual
  unfolding item_events item_size

  length-item_events :
      (is : Items) (rest : List Event) → length (item_events is rest) ≡ item_size is + length rest
  length-item_events nil rest = omega arith
  length-item_events (text t is) rest = omega (arith, length-item_events is rest)
  length-item_events (list js is) rest = omega (
    arith,
    length-item_events js (sequence_end ∷ item_events is rest),
    length-item_events is rest,
  )
  length-item_events (table es is) rest = omega (
    arith,
    length-entry_events es (mapping_end ∷ item_events is rest),
    length-item_events is rest,
  )

  pub length-entry_events :
      (es : Entries) (rest : List Event)
      → length (entry_events es rest) ≡ entry_size es + length rest
  length-entry_events end rest = omega arith
  length-entry_events (entry k v es) rest = omega (arith, length-entry_events es rest)
  length-entry_events (entry_list k is es) rest = omega (
    arith,
    length-item_events is (sequence_end ∷ entry_events es rest),
    length-entry_events es rest,
  )

-- The events of a file that holds such a document.
abbrev pub file_events : Entries → List Event
file_events es =
    ignored
    ∷ (ignored ∷ (mapping_start ∷ entry_events es (mapping_end ∷ (ignored ∷ (stream_end ∷ [])))))
