-- ===== src/Adj/Chunks/Drain.antt =====
-- crates/topodb/src/adj.rs: `adj_remove_all` over the decoded blocks.
use topo_db.Prelude.{ℕ, ◌<◌, ◌≡◌, ◌⊎◌, refl, ap, subst, ◌∙◌, inl, inr, arith, [], ◌∷◌, All}
use topo_db.Prelude.Rows.{remove_row, range, Ascends, All-range}
use topo_db.Prelude.Rows.Ends.{Found, Ascends-Found, Within, range-Within, range-Ascends}
use topo_db.Prelude.Rows.Removal.{
  All-remove_row, remove_row-Ascends, range-remove_row, range-remove_row_out, remove_row_middle,
}
use topo_db.Prelude.Outcome.{ok}
use topo_db.Frame.{Lz4, IsLz4}
use topo_db.Adj.Chunks.{
  out_adj_key, u32_max, key_type, keys, slot_rows, drain_chunks, adj_remove_all,
}
use topo_db.Adj.Chunks.Store.{
  Chunks, FitsRow, blocks, range-blocks, load_chunk-blocks, remove_row-blocks,
}
use topo_db.Adj.Chunks.Section.{WellFormed}
use topo_db.Adj.Chunks.Read.{tagged}

-- The rows of the range are gone, and those outside are as they were.
pub record Drained (c c' : Chunks) (low high : ℕ) : Type 0 where
  pub well : WellFormed c'
  pub gone : range low high c' ≡ []
  pub outside : (l h : ℕ) → (h < low) ⊎ (high < l) → range l h c' ≡ range l h c

without : (c : Chunks) (key : ℕ) → WellFormed c → WellFormed (remove_row c key)
without c key well = record {
  ascends = remove_row-Ascends c key well.ascends;
  fits = All-remove_row FitsRow c key well.fits;
}

drain :
    (lz4 : Lz4) (c rows : Chunks) (low high : ℕ)
    → IsLz4 lz4
    → WellFormed c
    → range low high c ≡ rows
    → (c' : Chunks) × (drain_chunks lz4 (blocks lz4 c) (keys (blocks lz4 rows))
        ≡ ok (tagged key_type rows, blocks lz4 c'))
      × Drained c c' low high
unfolding drain_chunks blocks
drain lz4 c [] low high laws well e =
    (c, refl, record { well = well; gone = e; outside = λ l h p. refl })
drain lz4 c ((k, es) ∷ rows) low high laws well e =
    let rest : range low high (remove_row c k) ≡ rows =
      range-remove_row c low high k
      ∙ ap (λ r. remove_row r k) e
      ∙ remove_row_middle [] k es rows
          (subst (λ r. Ascends r) e (range-Ascends low high c well.ascends)) in
    let (found, _) =
      subst (λ r. All (Found c) r) e
        (All-range (Found c) low high c (Ascends-Found c well.ascends)) in
    let (within, _) = subst (λ r. All (Within low high) r) e (range-Within low high c) in
    let (c', r, drained) = drain lz4 (remove_row c k) rows low high laws (without c k well) rest in
    (
      c',
      rw (load_chunk-blocks lz4 c k laws well.fits, found) (rw (remove_row-blocks lz4 c k) (rw r)),
      record {
        well = drained.well;
        gone = drained.gone;
        outside = λ l h p. drained.outside l h p ∙ (elim p [
          | inl q ↦ range-remove_row_out c l h k (ground (arith, within))
          | inr q ↦ range-remove_row_out c l h k (ground (arith, within))
        ]);
      },
    )

-- On a well-formed table `adj_remove_all` succeeds: it returns every entry of the slot with its type,
-- in the order of the table, leaves none of them, and keeps the rows of all other slots.
pub adj_remove_all_lem :
    (lz4 : Lz4) (c : Chunks) (slot : ℕ)
    → IsLz4 lz4
    → WellFormed c
    → let low = out_adj_key slot 0 0 in
      let high = out_adj_key slot u32_max u32_max in
      (c' : Chunks) × (adj_remove_all lz4 (blocks lz4 c) slot
        ≡ ok (tagged key_type (range low high c), blocks lz4 c'))
      × Drained c c' low high
unfolding adj_remove_all slot_rows
adj_remove_all_lem lz4 c slot laws well =
    let low = out_adj_key slot 0 0 in
    let high = out_adj_key slot u32_max u32_max in
    rw (range-blocks lz4 low high c) (drain lz4 c (range low high c) low high laws well refl)
