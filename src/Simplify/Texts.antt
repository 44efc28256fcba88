-- ===== src/Simplify/Texts.antt =====
-- What the simplification does to the texts of a tree.
use micro_config_drive.Base.{ℕ, ◌+◌, Bytes, data_eq, none, some, if◌then◌else◌, ◌≡◌, arith}
use micro_config_drive.GNode.{GNode, null, gnode, append_node}
use micro_config_drive.Simplify.{data_children, moved, unless_empty, simplify}

-- How many nodes have this text.
pub count : Bytes → GNode → ℕ
count t null = 0
count t (gnode d c n) = (if data_eq d t then 1 else 0) + (count t c + count t n)

count-append_node : (t : Bytes) (a b : GNode) → count t (append_node a b) ≡ count t a + count t b
unfolding count append_node
count-append_node t null b = omega arith
count-append_node t (gnode d c n) b = omega (arith, count-append_node t n b)

count-moved :
    (t : Bytes) (up a : GNode)
    → count t (data_children a) + count t (moved up a) ≡ count t a + count t up
unfolding count data_children moved
count-moved t up null = omega arith
count-moved t up (gnode (some d) c n) = omega (arith, count-moved t up n)
count-moved t up (gnode none c n) = omega (arith, count-moved t (gnode none c up) n)

count-unless_empty :
    (t : Bytes) (a rest : GNode) → count t (unless_empty a rest) ≡ count t a + count t rest
unfolding count unless_empty
count-unless_empty t null rest = omega arith
count-unless_empty t (gnode d c n) rest = omega arith

-- The simplification loses no text and adds none: every text is found as often in what stays and what
-- moves as it was before.
pub count-simplify :
    (t : Bytes) (a : GNode) → count t (simplify a).0 + count t (simplify a).1 ≡ count t a
unfolding count simplify
count-simplify t null = omega arith
count-simplify t (gnode (some d) c n) =
    let (below, up) = simplify c in
    omega (arith, count-simplify t c, count-simplify t n, count-append_node t below up)
count-simplify t (gnode none c n) =
    let (below, up) = simplify c in
    let (kept, behind) = simplify n in
    let nodes = append_node below up in
    omega (
      arith,
      count-simplify t c,
      count-simplify t n,
      count-append_node t below up,
      count-moved t null nodes,
      count-unless_empty t (data_children nodes) kept,
      count-append_node t (moved null nodes) behind,
    )
