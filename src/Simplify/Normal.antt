-- ===== src/Simplify/Normal.antt =====
-- The form of the trees that the handlers of the blocks get.
use micro_config_drive.Base.{none, some, Bool, true, false, ◌≡◌, refl, arith}
use micro_config_drive.GNode.{GNode, null, gnode, append_node, append_node-null}
use micro_config_drive.Simplify.{data_children, moved, unless_empty, simplify}

-- Whether all nodes of a list have data.
abbrev pub all_data : GNode → Bool
all_data null = true
all_data (gnode none c n) = false
all_data (gnode (some d) c n) = all_data n

abbrev pub some_node : GNode → Bool
some_node null = false
some_node (gnode d c n) = true

-- Every node without data has children, and they all have data.
abbrev pub IsNormal : GNode → Type 0
IsNormal null = Unit
IsNormal (gnode (some d) c n) = IsNormal c × IsNormal n
IsNormal (gnode none c n) = (some_node c ≡ true) × (all_data c ≡ true) × IsNormal c × IsNormal n

append_node-IsNormal : (a b : GNode) → IsNormal a → IsNormal b → IsNormal (append_node a b)
unfolding append_node
append_node-IsNormal null b p q = q
append_node-IsNormal (gnode (some d) c n) b (p, r) q = (p, append_node-IsNormal n b r q)
append_node-IsNormal (gnode none c n) b (e, f, p, r) q = (e, f, p, append_node-IsNormal n b r q)

data_children-IsNormal : (a : GNode) → IsNormal a → IsNormal (data_children a)
unfolding data_children
data_children-IsNormal null p = tt
data_children-IsNormal (gnode (some d) c n) (p, r) = (p, data_children-IsNormal n r)
data_children-IsNormal (gnode none c n) (e, f, p, r) = data_children-IsNormal n r

all_data-data_children : (a : GNode) → all_data (data_children a) ≡ true
unfolding data_children
all_data-data_children null = refl
all_data-data_children (gnode (some d) c n) = all_data-data_children n
all_data-data_children (gnode none c n) = all_data-data_children n

moved-IsNormal : (up a : GNode) → IsNormal up → IsNormal a → IsNormal (moved up a)
unfolding moved
moved-IsNormal up null p q = p
moved-IsNormal up (gnode (some d) c n) p (q, r) = moved-IsNormal up n p r
moved-IsNormal up (gnode none c n) p (e, f, q, r) =
    moved-IsNormal (gnode none c up) n (e, f, q, p) r

unless_empty-IsNormal :
    (a rest : GNode)
    → all_data a ≡ true
    → IsNormal a
    → IsNormal rest
    → IsNormal (unless_empty a rest)
unfolding unless_empty
unless_empty-IsNormal null rest e p q = q
unless_empty-IsNormal (gnode d c n) rest e p q = (refl, e, p, q)

-- After the simplification every node without data has children, and all of these have data: lists of
-- lists are gone, and so are empty lists. This holds of the siblings that stay and of those that move.
pub simplify-IsNormal : (a : GNode) → IsNormal (simplify a).0 × IsNormal (simplify a).1
unfolding simplify
simplify-IsNormal null = (tt, tt)
simplify-IsNormal (gnode (some d) c n) =
    let (below, up) = simplify-IsNormal c in
    let (kept, behind) = simplify-IsNormal n in ((append_node-IsNormal _ _ below up, kept), behind)
simplify-IsNormal (gnode none c n) =
    let (below, up) = simplify-IsNormal c in
    let (kept, behind) = simplify-IsNormal n in
    let nodes = append_node (simplify c).0 (simplify c).1 in
    let normal = append_node-IsNormal _ _ below up in
    (
      unless_empty-IsNormal (data_children nodes) _ (all_data-data_children nodes)
          (data_children-IsNormal nodes normal) kept,
      append_node-IsNormal _ _ (moved-IsNormal null nodes tt normal) behind,
    )

data_children-all_data : (a : GNode) → all_data a ≡ true → data_children a ≡ a
unfolding data_children
data_children-all_data null h = refl
data_children-all_data (gnode none c n) h = absurd (ground arith)
data_children-all_data (gnode (some d) c n) h = rw (data_children-all_data n h)

moved-all_data : (up a : GNode) → all_data a ≡ true → moved up a ≡ up
unfolding moved
moved-all_data up null h = refl
moved-all_data up (gnode none c n) h = absurd (ground arith)
moved-all_data up (gnode (some d) c n) h = moved-all_data up n h

unless_empty-some_node :
    (a rest : GNode) → some_node a ≡ true → unless_empty a rest ≡ gnode none a rest
unfolding unless_empty
unless_empty-some_node null rest h = absurd (ground arith)
unless_empty-some_node (gnode d c n) rest h = refl

-- A tree of that form is left as it is, so it does no harm that the nodes which were moved are met
-- again.
pub simplify_normal : (a : GNode) → IsNormal a → simplify a ≡ (a, null)
unfolding simplify
simplify_normal null p = refl
simplify_normal (gnode (some d) c n) (p, q) =
    rw (simplify_normal c p, simplify_normal n q) (rw (append_node-null c))
simplify_normal (gnode none c n) (e, f, p, q) =
    rw (simplify_normal c p, simplify_normal n q)
      (rw (append_node-null c) (
        rw (data_children-all_data c f, moved-all_data null c f)
          (rw (unless_empty-some_node c n e, append_node-null null))))
