-- ===== src/Yaml.antt =====
-- `cloud_config_parse` of src/interpreters/cloud_config.c: the events of libyaml build a tree.
pub mod Documents
pub mod Total
use micro_config_drive.Base.{
  ℕ, zero, suc, Bytes, Option, none, some, List, [], ◌∷◌, Bool, true, false, if◌then◌else◌,
}
use micro_config_drive.GNode.{GNode, null, gnode, leaf, append_node, below_last}

-- What `yaml_parser_parse` answers: an error, or the event that it fills in. `ignored` stands for the
-- events of the default case.
pub data Event : Type 0 where
  failure : Event
  scalar : Bytes → Event
  sequence_start sequence_end mapping_start mapping_end stream_end no_token ignored : Event

-- The bits `SEQ`, `MAP` and `VAL` of `state`.
pub record State : Type 0 where
  pub seq : Bool
  pub map : Bool
  pub val : Bool

abbrev pub start_state : State
start_state = record { seq = false; map = false; val = false }

abbrev pub in_sequence : State
in_sequence = record { seq = true; map = false; val = false }

abbrev pub in_mapping : State
in_mapping = record { seq = false; map = true; val = false }

-- The node that is filled: its children so far, whether `last_leaf` is the last of these (it is the
-- node itself otherwise), and `state`.
pub record Frame : Type 0 where
  pub kids : GNode
  pub at_last : Bool
  pub state : State

abbrev pub frame : State → Frame
frame s = record { kids = null; at_last = false; state = s }

-- `g_node_append (last_leaf, x)`
abbrev pub append_last : Frame → GNode → GNode
append_last f x = if f.at_last then below_last f.kids x else append_node f.kids x

-- The case of a scalar.
unfoldable pub on_scalar : Frame → Bytes → Frame
on_scalar f text =
    if f.state.seq
    then record f { kids = append_node f.kids (leaf text); at_last = true }
    else if f.state.val
    then record f {
      kids = append_last f (leaf text);
      state = record { seq = f.state.seq; map = f.state.map; val = false };
    }
    else record f {
      kids = append_node f.kids (leaf text);
      at_last = true;
      state = record { seq = f.state.seq; map = f.state.map; val = true };
    }

-- The state in which a sequence is met: in a mapping the `VAL` bit goes.
abbrev pub before_sequence : State → State
before_sequence s = if s.map then in_mapping else s

-- The case of a sequence, with the nodes of the sequence.
unfoldable pub on_sequence : Frame → GNode → Frame
on_sequence f items =
    let s = before_sequence f.state in
    if s.seq
    then record { kids = append_node f.kids (gnode none items null); at_last = false; state = s }
    else record { kids = append_last f (gnode none items null); at_last = f.at_last; state = s }

-- The case of a mapping, with the nodes of the mapping: it goes below the node, wherever `last_leaf`
-- is, and the `VAL` bit stays.
unfoldable pub on_mapping : Frame → GNode → Frame
on_mapping f pairs = record {
  kids = append_node f.kids (gnode none pairs null);
  at_last = false;
  state = f.state;
}

-- What a call returns, the children that it has built, and the events that are left.
pub record Outcome : Type 0 where
  pub succeeded : Bool
  pub built : GNode
  pub rest : List Event

abbrev failed : Frame → List Event → Outcome
failed f events = record { succeeded = false; built = f.kids; rest = events }

abbrev finished : Frame → List Event → Outcome
finished f events = record { succeeded = true; built = f.kids; rest = events }

-- The loop on fuel; `none` means that the fuel ran out. The call for an inner node comes back with
-- its children, which are in the tree also if it failed.
unfoldable pub parse : ℕ → List Event → Frame → Option Outcome
parse zero events f = none
parse (suc fuel) [] f = some (failed f [])
parse (suc fuel) (failure ∷ events) f = some (failed f events)
parse (suc fuel) (scalar text ∷ events) f = parse fuel events (on_scalar f text)
parse (suc fuel) (sequence_start ∷ events) f = elim (parse fuel events (frame in_sequence)) [
  | none ↦ none
  | some inner ↦ elim inner.succeeded [
    | true ↦ parse fuel inner.rest (on_sequence f inner.built)
    | false ↦ some (failed (on_sequence f inner.built) inner.rest)
  ]
]
parse (suc fuel) (mapping_start ∷ events) f = elim (parse fuel events (frame in_mapping)) [
  | none ↦ none
  | some inner ↦ elim inner.succeeded [
    | true ↦ parse fuel inner.rest (on_mapping f inner.built)
    | false ↦ some (failed (on_mapping f inner.built) inner.rest)
  ]
]
parse (suc fuel) (sequence_end ∷ events) f = some (finished f events)
parse (suc fuel) (mapping_end ∷ events) f = some (finished f events)
parse (suc fuel) (stream_end ∷ events) f = some (finished f events)
parse (suc fuel) (no_token ∷ events) f = some (finished f events)
parse (suc fuel) (ignored ∷ events) f = parse fuel events f

-- The tree of a file: the root holds the file name, and the result of the parser is not looked at.
unfoldable pub parse_file : ℕ → Bytes → List Event → Option GNode
unfolding parse
parse_file fuel filename events = elim (parse fuel events (frame start_state)) [
  | none ↦ none
  | some outcome ↦ some (gnode (some filename) outcome.built null)
]
