-- ===== src/Adj/Block/Entry.antt =====
-- crates/topodb/src/adj.rs: the bytes of one entry of a block.
use mathlib.Core.List.{append_assoc}
use topo_db.Prelude.{
  ℕ, ◌+◌, ◌-◌, ◌^◌, ◌≤◌, ◌<◌, ◌≡◌, refl, arith, Option, none, some, List, [], ◌∷◌, ◌++◌, lt→ltb,
}
use topo_db.Prelude.Outcome.{ok}
use topo_db.Adj.Codec.{IsU64, zigzag}
use topo_db.Adj.Varint.{groups, write_varint-groups, read_groups}
use topo_db.Adj.Zigzag.{zigzag-IsU64, unzigzag-zigzag}
use topo_db.Adj.Block.{AdjEntry, write_valid_to, write_entry, read_valid_to, read_entry}

-- The ranges of the fields' types.
abbrev pub IsEnd : Option ℕ → Type 0
IsEnd none = Unit
IsEnd (some v) = IsU64 v

pub record IsEntry (e : AdjEntry) : Type 0 where
  pub target_u64 : IsU64 e.target
  pub edge_u64 : IsU64 e.edge
  pub scope_u32 : e.scope < 2 ^ 32
  pub valid_from_i64 : IsU64 e.valid_from
  pub valid_to_i64 : IsEnd e.valid_to

unfoldable pub end_bytes : Option ℕ → List ℕ
end_bytes none = 0 ∷ []
end_bytes (some v) = 1 ∷ groups 9 (zigzag v)

unfoldable pub entry_bytes : ℕ → AdjEntry → List ℕ
entry_bytes delta e =
    groups 9 delta
    ++ (groups 9 e.edge
        ++ (groups 9 e.scope ++ (groups 9 (zigzag e.valid_from) ++ end_bytes e.valid_to)))

write_valid_to-end_bytes :
    (out : List ℕ) (v : Option ℕ) → IsEnd v → write_valid_to out v ≡ out ++ end_bytes v
unfolding write_valid_to end_bytes
write_valid_to-end_bytes out none h = refl
write_valid_to-end_bytes out (some v) h =
    rw (write_varint-groups _ (zigzag v) (zigzag-IsU64 v h)) (append_assoc out _ _)

pub write_entry-entry_bytes :
    (out : List ℕ) (delta : ℕ) (e : AdjEntry)
    → IsU64 delta
    → IsEntry e
    → write_entry out delta e ≡ out ++ entry_bytes delta e
unfolding write_entry entry_bytes
write_entry-entry_bytes out delta e hd h = simp (
  write_varint-groups out delta hd,
  write_varint-groups _ e.edge h.edge_u64,
  write_varint-groups _ e.scope (omega (arith, h.scope_u32)),
  write_varint-groups _ (zigzag e.valid_from) (zigzag-IsU64 e.valid_from h.valid_from_i64),
  write_valid_to-end_bytes _ e.valid_to h.valid_to_i64,
  append_assoc,
)

read_valid_to-end_bytes :
    (v : Option ℕ) (rest : List ℕ) → IsEnd v → read_valid_to (end_bytes v ++ rest) ≡ ok (v, rest)
unfolding read_valid_to end_bytes
read_valid_to-end_bytes none rest h = refl
read_valid_to-end_bytes (some v) rest h =
    rw (read_groups (zigzag v) rest (zigzag-IsU64 v h), unzigzag-zigzag v h)

pub read_entry-entry_bytes :
    (previous : ℕ) (e : AdjEntry) (rest : List ℕ)
    → previous ≤ e.target
    → IsEntry e
    → read_entry (entry_bytes (e.target - previous) e ++ rest) previous ≡ ok (e, rest)
unfolding read_entry entry_bytes
read_entry-entry_bytes previous e rest le h =
    simp
      (
        append_assoc,
        read_groups (e.target - previous) _ (omega (arith, h.target_u64)),
        read_groups e.edge _ h.edge_u64,
        read_groups e.scope _ (omega (arith, h.scope_u32)),
        read_groups (zigzag e.valid_from) _ (zigzag-IsU64 e.valid_from h.valid_from_i64),
        read_valid_to-end_bytes e.valid_to _ h.valid_to_i64,
        unzigzag-zigzag e.valid_from h.valid_from_i64,
      )
      (rw (fits, lt→ltb _ _ h.target_u64, lt→ltb _ _ h.scope_u32))
  where
    fits : previous + (e.target - previous) ≡ e.target
    fits = omega arith
