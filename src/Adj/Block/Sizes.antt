-- ===== src/Adj/Block/Sizes.antt =====
-- crates/topodb/src/adj.rs: how long an encoded block is.
use topo_db.Prelude.{
  ℕ, ◌+◌, ◌*◌, ◌-◌, ◌≤◌, arith, Option, none, some, List, [], ◌∷◌, ◌++◌, length, length-append,
}
use topo_db.Adj.Codec.{zigzag}
use topo_db.Adj.Varint.{groups, length-groups}
use topo_db.Adj.Block.{AdjEntry}
use topo_db.Adj.Block.Entry.{end_bytes, entry_bytes}
use topo_db.Adj.Block.RoundTrip.{block_bytes, whole_block}

length-end_bytes : (v : Option ℕ) → (1 ≤ length (end_bytes v)) × (length (end_bytes v) ≤ 11)
unfolding end_bytes
length-end_bytes none = omega arith
length-end_bytes (some v) = let (low, high) = length-groups 9 (zigzag v) in omega arith

length-entry_bytes :
    (delta : ℕ) (e : AdjEntry)
    → (5 ≤ length (entry_bytes delta e)) × (length (entry_bytes delta e) ≤ 51)
unfolding entry_bytes
length-entry_bytes delta e =
    let tail = groups 9 (zigzag e.valid_from) ++ end_bytes e.valid_to in
    omega (
      arith,
      length-append (groups 9 delta) (groups 9 e.edge ++ (groups 9 e.scope ++ tail)),
      length-append (groups 9 e.edge) (groups 9 e.scope ++ tail),
      length-append (groups 9 e.scope) tail,
      length-append (groups 9 (zigzag e.valid_from)) (end_bytes e.valid_to),
      length-groups 9 delta,
      length-groups 9 e.edge,
      length-groups 9 e.scope,
      length-groups 9 (zigzag e.valid_from),
      length-end_bytes e.valid_to,
    )

length-block_bytes :
    (previous : ℕ) (es : List AdjEntry)
    → (5 * length es ≤ length (block_bytes previous es))
      × (length (block_bytes previous es) ≤ 51 * length es)
unfolding block_bytes
length-block_bytes previous [] = omega arith
length-block_bytes previous (e ∷ es) = omega (
  arith,
  length-append (entry_bytes (e.target - previous) e) (block_bytes e.target es),
  length-entry_bytes (e.target - previous) e,
  length-block_bytes e.target es,
)

-- Each entry takes five to 51 bytes.
pub length-whole_block :
    (es : List AdjEntry)
    → (5 * length es ≤ length (whole_block es)) × (length (whole_block es) ≤ 51 * length es + 11)
unfolding whole_block
length-whole_block es = omega (
  arith,
  length-append (groups 9 (length es)) (block_bytes 0 es),
  length-groups 9 (length es),
  length-block_bytes 0 es,
)
