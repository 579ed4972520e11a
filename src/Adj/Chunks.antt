-- ===== src/Adj/Chunks.antt =====
-- crates/topodb/src/adj.rs: the adjacency tables. The entries of a node slot and an edge type stand
-- in blocks under numbered keys; the keys are 16 bytes, so numbers that rise with their bytes.
pub mod Store
pub mod Entries
pub mod Section
pub mod Insert
pub mod Read
pub mod Update
pub mod Close
pub mod Remove
pub mod Drain
pub mod Tests
pub mod Succeeds
use topo_db.Prelude.{
  ℕ, ◌+◌, ◌*◌, ◌-◌, ◌/◌, ◌%◌, ◌^◌, Bool, true, false, ◌&&◌, ◌||◌, not, Option, none, some, List, [],
  ◌∷◌, ◌++◌, map, length, take, drop, ltb, leb, ◌==◌, if◌then◌else◌,
}
use topo_db.Prelude.Rows.{insert_row, remove_row, get_row, range, last_key}
use topo_db.Prelude.Outcome.{Result, ok, err, TopoError, ◌>>=◌}
use topo_db.Frame.{Lz4, frame_value, unframe_value}
use topo_db.Adj.Block.{AdjEntry, encode_block, decode_block}

abbrev pub chunk_split_target : ℕ
chunk_split_target = 8 * 1024

abbrev pub u32_max : ℕ
u32_max = 2 ^ 32 - 1

unfoldable pub out_adj_key : ℕ → ℕ → ℕ → ℕ
out_adj_key slot edge_type chunk = slot * 2 ^ 64 + edge_type * 2 ^ 32 + chunk

-- The last part of `key_parts`, and the one before it.
unfoldable pub key_chunk : ℕ → ℕ
key_chunk key = key % 2 ^ 32

unfoldable pub key_type : ℕ → ℕ
key_type key = key / 2 ^ 32 % 2 ^ 32

-- A table, from its keys to the framed blocks.
abbrev pub AdjTable : Type 0
AdjTable = List (ℕ × List ℕ)

abbrev pub keys : AdjTable → List ℕ
keys rows = map (λ r. r.0) rows

-- The scans behind `type_chunk_keys` and `slot_chunk_keys`.
unfoldable pub type_rows : AdjTable → ℕ → ℕ → AdjTable
type_rows table slot edge_type =
    range (out_adj_key slot edge_type 0) (out_adj_key slot edge_type u32_max) table

unfoldable pub slot_rows : AdjTable → ℕ → AdjTable
slot_rows table slot = range (out_adj_key slot 0 0) (out_adj_key slot u32_max u32_max) table

-- `.last().and_then(key_parts)...unwrap_or(0)`
abbrev pub chunk_of : Option ℕ → ℕ
chunk_of none = 0
chunk_of (some key) = key_chunk key

-- `binary_search_by_key(&(target, edge))`, then `insert`: the place is before the first entry that
-- does not precede the new one.
abbrev pub precedes : AdjEntry → AdjEntry → Bool
precedes a b = ltb a.target b.target || (a.target == b.target && ltb a.edge b.edge)

unfoldable pub insert_entry : List AdjEntry → AdjEntry → List AdjEntry
insert_entry [] entry = entry ∷ []
insert_entry (e ∷ es) entry =
    if precedes e entry then e ∷ insert_entry es entry else entry ∷ (e ∷ es)

abbrev pub prepend : AdjEntry → Option (List AdjEntry) → Option (List AdjEntry)
prepend e none = none
prepend e (some es) = some (e ∷ es)

-- The first entry of the edge, closed; nothing if no entry is of the edge.
unfoldable pub close_entry : List AdjEntry → ℕ → ℕ → Option (List AdjEntry)
close_entry [] edge_slot valid_to = none
close_entry (e ∷ es) edge_slot valid_to =
    let later = close_entry es edge_slot valid_to in
    if e.edge == edge_slot
    then some (record e { valid_to = some valid_to } ∷ es)
    else prepend e later

-- `entries.retain(|entry| entry.edge != edge_slot)`
unfoldable pub retain_other : List AdjEntry → ℕ → List AdjEntry
retain_other [] edge_slot = []
retain_other (e ∷ es) edge_slot =
    if e.edge == edge_slot then retain_other es edge_slot else e ∷ retain_other es edge_slot

module _ (lz4 : Lz4) where
  unfoldable pub load_value : Option (List ℕ) → Result (List AdjEntry)
  load_value none = ok []
  load_value (some value) = unframe_value lz4 value >>= decode_block

  unfoldable pub load_chunk : AdjTable → ℕ → Result (List AdjEntry)
  unfolding load_value
  load_chunk table key = load_value (get_row table key)

  unfoldable pub store_chunk : AdjTable → ℕ → List AdjEntry → Result AdjTable
  store_chunk table key entries = do
    block ← encode_block entries
    ok (insert_row table key (frame_value lz4 block))

  -- The last `if` of `adj_insert`, on the length of the whole block.
  unfoldable pub store_split : AdjTable → ℕ → ℕ → ℕ → List AdjEntry → ℕ → Result AdjTable
  unfolding store_chunk
  store_split table slot edge_type chunk entries len =
      let key = out_adj_key slot edge_type chunk in
      let split = length entries / 2 in
      let halved : Result AdjTable = (do
        first ← store_chunk table key (take split entries)
        store_chunk first (out_adj_key slot edge_type ((chunk + 1) % 2 ^ 32))
            (drop split entries)) in
      if leb len chunk_split_target then store_chunk table key entries else halved

  unfoldable pub adj_insert : AdjTable → ℕ → ℕ → AdjEntry → Result AdjTable
  unfolding store_split load_chunk
  adj_insert table slot edge_type entry =
      let chunk = chunk_of (last_key (type_rows table slot edge_type)) in
      do
        loaded ← load_chunk table (out_adj_key slot edge_type chunk)
        block ← encode_block (insert_entry loaded entry)
        store_split table slot edge_type chunk (insert_entry loaded entry) (length block)

  -- `out.extend(load_chunk(..)?.into_iter().map(|e| (edge_type, e)))` for each key, with the type
  -- that the scan asks for, or the one in the key.
  unfoldable pub read_chunks : (ℕ → ℕ) → AdjTable → List ℕ → Result (List (ℕ × AdjEntry))
  unfolding load_chunk
  read_chunks type_of table [] = ok []
  read_chunks type_of table (key ∷ rest) = do
    entries ← load_chunk table key
    more ← read_chunks type_of table rest
    ok (map (λ e. (type_of key, e)) entries ++ more)

  unfoldable pub read_types : AdjTable → ℕ → List ℕ → Result (List (ℕ × AdjEntry))
  unfolding read_chunks
  read_types table slot [] = ok []
  read_types table slot (edge_type ∷ types) = do
    entries ← read_chunks (λ key. edge_type) table (keys (type_rows table slot edge_type))
    more ← read_types table slot types
    ok (entries ++ more)

  unfoldable pub read_adj : AdjTable → ℕ → Option (List ℕ) → Result (List (ℕ × AdjEntry))
  unfolding read_types
  read_adj table slot (some types) = read_types table slot types
  read_adj table slot none = read_chunks key_type table (keys (slot_rows table slot))

  unfoldable pub close_in :
      AdjTable → ℕ → Option (List AdjEntry) → Result (Bool × AdjTable) → Result (Bool × AdjTable)
  close_in table key none rest = rest
  close_in table key (some entries) rest = do
    table' ← store_chunk table key entries
    ok (true, table')

  unfoldable pub close_chunks : AdjTable → List ℕ → ℕ → ℕ → Result (Bool × AdjTable)
  unfolding close_in load_chunk
  close_chunks table [] edge_slot valid_to = ok (false, table)
  close_chunks table (key ∷ rest) edge_slot valid_to =
      let later = close_chunks table rest edge_slot valid_to in
      do
        entries ← load_chunk table key
        close_in table key (close_entry entries edge_slot valid_to) later

  unfoldable pub adj_close : AdjTable → ℕ → ℕ → ℕ → ℕ → Result (Bool × AdjTable)
  unfolding close_chunks
  adj_close table slot edge_type edge_slot valid_to =
      close_chunks table (keys (type_rows table slot edge_type)) edge_slot valid_to

  unfoldable pub store_or_remove : AdjTable → ℕ → List AdjEntry → Result AdjTable
  unfolding store_chunk
  store_or_remove table key [] = ok (remove_row table key)
  store_or_remove table key (e ∷ es) = store_chunk table key (e ∷ es)

  unfoldable pub remove_in :
      AdjTable
      → ℕ
      → List AdjEntry
      → List AdjEntry
      → Result (Bool × AdjTable)
      → Result (Bool × AdjTable)
  unfolding store_or_remove
  remove_in table key entries kept rest =
      let stored : Result (Bool × AdjTable) = (do
        table' ← store_or_remove table key kept
        ok (true, table')) in
      if length kept == length entries then rest else stored

  unfoldable pub remove_chunks : AdjTable → List ℕ → ℕ → Result (Bool × AdjTable)
  unfolding remove_in load_chunk
  remove_chunks table [] edge_slot = ok (false, table)
  remove_chunks table (key ∷ rest) edge_slot =
      let later = remove_chunks table rest edge_slot in
      do
        entries ← load_chunk table key
        remove_in table key entries (retain_other entries edge_slot) later

  unfoldable pub adj_remove_edge : AdjTable → ℕ → ℕ → ℕ → Result (Bool × AdjTable)
  unfolding remove_chunks
  adj_remove_edge table slot edge_type edge_slot =
      remove_chunks table (keys (type_rows table slot edge_type)) edge_slot

  unfoldable pub drain_chunks : AdjTable → List ℕ → Result (List (ℕ × AdjEntry) × AdjTable)
  unfolding load_chunk
  drain_chunks table [] = ok ([], table)
  drain_chunks table (key ∷ rest) = do
    entries ← load_chunk table key
    (more, table') ← drain_chunks (remove_row table key) rest
    ok (map (λ e. (key_type key, e)) entries ++ more, table')

  unfoldable pub adj_remove_all : AdjTable → ℕ → Result (List (ℕ × AdjEntry) × AdjTable)
  unfolding drain_chunks
  adj_remove_all table slot = drain_chunks table (keys (slot_rows table slot))
