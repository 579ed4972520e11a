-- ===== src/Adj/Tests.antt =====
-- Runs of the functions of crates/topodb/src/adj.rs, and the theorems at concrete inputs.
use topo_db.Prelude.{ℕ, ◌-◌, ◌≡◌, refl, arith, none, some, List, [], ◌∷◌, ◌++◌, All, ◌↔◌, false}
use topo_db.Prelude.Outcome.{ok}
use topo_db.Adj.Codec.{write_varint, read_varint, zigzag, u64_mod}
use topo_db.Adj.Varint.{read_varint-write_varint}
use topo_db.Adj.Block.{AdjEntry, is_unsorted, encode_block, decode_block}
use topo_db.Adj.Block.Entry.{IsEntry}
use topo_db.Adj.Block.RoundTrip.{IsSorted, decode_block-encode_block, encode_block_iff}

write_300 : write_varint [] 300 ≡ 0xac ∷ 2 ∷ []
unfolding write_varint
write_300 = refl

minus_one : zigzag (u64_mod - 1) ≡ 1
unfolding zigzag
minus_one = refl

read_300 : read_varint (0xac ∷ 2 ∷ 9 ∷ []) ≡ ok (300, 9 ∷ [])
unfolding read_varint
read_300 = refl

abbrev two_edges : List AdjEntry
two_edges =
    record { target = 3; edge = 300; scope = 1; valid_from = 1000; valid_to = none }
    ∷ record { target = 7; edge = 4; scope = 0; valid_from = u64_mod - 5; valid_to = some 2000 }
    ∷ []

two_edges-IsEntry : All IsEntry two_edges
two_edges-IsEntry = omega arith

two_edges_sorted : is_unsorted two_edges ≡ false
unfolding is_unsorted
two_edges_sorted = refl

read_varint-write_varint_example : read_varint (write_varint [] 300 ++ 9 ∷ []) ≡ ok (300, 9 ∷ [])
read_varint-write_varint_example = read_varint-write_varint 300 (9 ∷ []) (omega arith)

decode_block-encode_block_example :
    (bytes : List ℕ) × (encode_block two_edges ≡ ok bytes) × (decode_block bytes ≡ ok two_edges)
decode_block-encode_block_example =
    decode_block-encode_block two_edges two_edges_sorted two_edges-IsEntry (omega arith)

encode_block_iff_example :
    ((bytes : List ℕ) × (encode_block two_edges ≡ ok bytes)) ↔ IsSorted 0 two_edges
encode_block_iff_example = encode_block_iff two_edges two_edges-IsEntry (omega arith)
