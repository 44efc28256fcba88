-- ===== src/CloudConfig.antt =====
-- Reading values out of a parsed document: `cloud_config_bool`, `cloud_config_int_base`,
-- `cloud_config_find` and the global data of src/interpreters/cloud_config.c.
pub mod Values
use micro_config_drive.Base.{
  ℕ, Bytes, str, str_eq, data_eq, starts_with_nocase, Option, none, some, List, [], ◌∷◌, ◌++◌, Bool,
  true, false, ◌||◌, ◌^◌, if◌then◌else◌,
}
use micro_config_drive.Strtol.{Parsed, strtol, to_word}
use micro_config_drive.System.{Os}
use micro_config_drive.System.Io.{World, Io, Pointer}
use micro_config_drive.GNode.{GNode, null, gnode, node_data, children}

-- The tables of `cloud_config_bool`.
abbrev pub true_values : List Bytes
true_values = str "1" ∷ str "true" ∷ str "yes" ∷ str "y" ∷ str "on" ∷ []

abbrev pub false_values : List Bytes
false_values = str "0" ∷ str "false" ∷ str "no" ∷ str "n" ∷ str "off" ∷ []

-- `g_ascii_strncasecmp (data, value, strlen (value)) == 0`; of a NULL `data` GLib does not document
-- the answer, which is a parameter.
abbrev pub value_matches : Os → Option Bytes → Bytes → Bool
value_matches os none value = os.null_matches
value_matches os (some text) value = starts_with_nocase text value

unfoldable pub any_matches : Os → Option Bytes → List Bytes → Bool
any_matches os text [] = false
any_matches os text (v ∷ vs) = value_matches os text v || any_matches os text vs

-- `cloud_config_bool (node, &b)`: what it returns, and `b` after the call.
unfoldable pub cloud_config_bool : Os → GNode → Bool → Bool × Bool
unfolding any_matches
cloud_config_bool os node b =
    if any_matches os (node_data node) true_values
    then (true, true)
    else if any_matches os (node_data node) false_values
    then (true, false)
    else (false, b)

-- `cloud_config_int_base (node, &i, base)` on a text, with `i` as the 32 bits that are stored, and
-- `errno` before the call, which the code does not reset.
unfoldable pub cloud_config_int_base : Bytes → ℕ → Bool → Bool × ℕ
cloud_config_int_base text base erange =
    let r = strtol text base in
    let i = to_word 32 r in if erange || r.out_of_range then (false, i) else (str_eq r.rest [], i)

-- `cloud_config_find` returns the first child of the node with the key. Its parent is that node.
pub record Found : Type 0 where
  pub parent : GNode
  pub item : GNode

unfoldable pub find_child : Bytes → GNode → Found
find_child key null = record { parent = null; item = null }
find_child key (gnode d c n) =
    if data_eq d key then record { parent = gnode d c n; item = c } else find_child key n

unfoldable pub cloud_config_find : GNode → Bytes → Found
unfolding find_child
cloud_config_find node key = find_child key (children node)

-- `g_hash_table_insert` and `g_hash_table_lookup`, on the table of the global data.
unfoldable pub lookup_global : Bytes → List (Bytes × Pointer) → Option Pointer
lookup_global key [] = none
lookup_global key ((k, p) ∷ rest) = if str_eq k key then some p else lookup_global key rest

unfoldable pub cloud_config_set_global : Bytes → Pointer → Io (Unit {0})
cloud_config_set_global key value w = (tt, record w { global_data = (key, value) ∷ w.global_data })

unfoldable pub cloud_config_get_global : Bytes → Io (Option Pointer)
cloud_config_get_global key w = (lookup_global key w.global_data, w)
