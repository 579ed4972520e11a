-- ===== src/Storage/Reconcile/Settled.antt =====
-- crates/topodb/src/storage.rs: a second `ensure_index_spec`.
use topo_db.Prelude.{
  ℕ, ◌≡◌, refl, sym, ap, subst, ◌⊎◌, inl, inr, arith, Bool, true, false, Option, none, some, List,
  [], ◌∷◌,
}
use topo_db.Prelude.Bytes.{Bytes}
use topo_db.Prelude.Outcome.{Result, ok, err, ok-injective, ◌>>=◌}
use text.Mathlib.TextPositions.{eq_refl}
use topo_db.Op.{same_bytes}
use topo_db.Index.{PropIndex, IndexSpec}
use topo_db.Storage.Act.{Storage}
use topo_db.Storage.Batch.{Engine}
use topo_db.Storage.Reconcile.{
  SpecMeta, SpecCodec, normalized_spec, same_list, Decision, index_spec_reconcile_decision, Indexes,
  unless_legacy, without_legacy, stamped, carried_out, ensure_index_spec,
}

same_list_self : (ps : List PropIndex) → same_list ps ps ≡ true
unfolding same_list
same_list_self [] = refl
same_list_self (p ∷ ps) = rw (eq_refl p.label, eq_refl p.prop, same_list_self ps) refl

same_bytes_self : (b : Bytes) → same_bytes b b ≡ true
same_bytes_self [] = refl
same_bytes_self (x ∷ b) = ground (arith, same_bytes_self b)

-- The rows of `META` that an opening with these declarations leaves.
pub record IsSettled (bytes : Bytes) (meta : SpecMeta) : Type 0 where
  pub spec : meta.index_spec ≡ some bytes
  pub norm : meta.prop_index_norm_version ≡ some 1
  pub analyzer : meta.fts_analyzer_version ≡ some 1
  pub legacy : meta.fts_spec ≡ none

module _ (codec : SpecCodec) (spec : IndexSpec) (bytes : Bytes)
    (reads : codec.to_spec bytes ≡ ok spec) where
  settled-decision :
      (meta : SpecMeta)
      → IsSettled bytes meta
      → index_spec_reconcile_decision codec meta spec bytes ≡ ok (false, false, false)
  unfolding index_spec_reconcile_decision
  settled-decision meta h =
      rw
        (
          h.legacy,
          h.norm,
          h.analyzer,
          h.spec,
          reads,
          same_list_self spec.text,
          same_list_self spec.equality,
          same_bytes_self bytes,
        )
        refl

module _ (engine : Engine) (codec : SpecCodec) (spec : IndexSpec) (bytes : Bytes) where
  -- The legacy keys are to go if they are there.
  row-legacy :
      (meta : SpecMeta) (stale n l d : Bool) (row : Option Bytes)
      → meta.fts_spec ≡ row
      → unless_legacy codec meta stale spec bytes row ≡ ok (n, l, d)
      → (without_legacy engine l meta).fts_spec ≡ none
  row-legacy meta stale n true d row e h = refl
  row-legacy meta stale n false d none e h = e
  row-legacy meta stale n false d (some v) e h = absurd (cc)

  decision-legacy :
      (meta : SpecMeta) (n l d : Bool)
      → index_spec_reconcile_decision codec meta spec bytes ≡ ok (n, l, d)
      → (without_legacy engine l meta).fts_spec ≡ none
  unfolding index_spec_reconcile_decision
  decision-legacy meta n l d h = row-legacy meta _ n l d meta.fts_spec refl h

  -- Either nothing was to be done, and nothing was, or the rows are settled now.
  abbrev Carried : SpecMeta → Indexes engine → Decision → SpecMeta × Indexes engine → Type 0
  Carried meta ix decision (meta', ix') =
      ((l : Bool) × (decision ≡ (false, l, false)) × (meta' ≡ meta) × (ix' ≡ ix))
      ⊎ IsSettled bytes meta'

  stamped-Carried :
      (s : Storage) (rows : List (ℕ × Bytes)) (meta : SpecMeta) (ix : Indexes engine) (n l d : Bool)
      (r : Result (Indexes engine)) (out : SpecMeta × Indexes engine)
      → (without_legacy engine l meta).fts_spec ≡ none
      → (r >>= λ ix'. ok (stamped engine (without_legacy engine l meta) bytes, ix')) ≡ ok out
      → Carried meta ix (n, l, d) out
  stamped-Carried s rows meta ix n l d (ok ix') out gone h =
      subst (λ (o : SpecMeta × Indexes engine). Carried meta ix (n, l, d) o)
        (ok-injective out (stamped engine (without_legacy engine l meta) bytes, ix') out h)
        (inr (record { spec = refl; norm = refl; analyzer = refl; legacy = gone }))
  stamped-Carried s rows meta ix n l d (err e) out gone h = absurd (cc)

  carried_out-Carried :
      (s : Storage) (rows : List (ℕ × Bytes)) (meta : SpecMeta) (ix : Indexes engine) (n l d : Bool)
      (out : SpecMeta × Indexes engine)
      → (without_legacy engine l meta).fts_spec ≡ none
      → carried_out engine s rows meta ix bytes (n, l, d) ≡ ok out
      → Carried meta ix (n, l, d) out
  carried_out-Carried s rows meta ix false l false out gone h = inl (
    l,
    refl,
    ap (λ (o : SpecMeta × Indexes engine). o.0) (sym (ok-injective out (meta, ix) out h)),
    ap (λ (o : SpecMeta × Indexes engine). o.1) (sym (ok-injective out (meta, ix) out h)),
  )
  carried_out-Carried s rows meta ix true l d out gone h =
      stamped-Carried s rows meta ix true l d _ out gone h
  carried_out-Carried s rows meta ix false l true out gone h =
      stamped-Carried s rows meta ix false l true (ok ix) out gone h

  decided-Carried :
      (s : Storage) (rows : List (ℕ × Bytes)) (meta : SpecMeta) (ix : Indexes engine)
      (r : Result Decision) (out : SpecMeta × Indexes engine)
      → index_spec_reconcile_decision codec meta spec bytes ≡ r
      → (r >>= carried_out engine s rows meta ix bytes) ≡ ok out
      → (decision : Decision) × (index_spec_reconcile_decision codec meta spec bytes ≡ ok decision)
        × Carried meta ix decision out
  decided-Carried s rows meta ix (ok (n, l, d)) out e h =
      ((n, l, d), e, carried_out-Carried s rows meta ix n l d out (decision-legacy meta n l d e) h)
  decided-Carried s rows meta ix (err x) out e h = absurd (cc)

-- An opening settles the file: where `ensure_index_spec` has succeeded, a further one with the same
-- declarations finds nothing to do, whatever the nodes are by then: it succeeds, and the rows of
-- `META` and the indexes stay as they are. The declarations are read back from their encoding as
-- they were written.
pub ensure_index_spec_settles :
    (engine : Engine) (codec : SpecCodec) (s s' : Storage) (rows rows' : List (ℕ × Bytes))
    (meta meta' : SpecMeta) (ix ix' : Indexes engine) (bytes : Bytes)
    → codec.of_spec (normalized_spec engine.spec) ≡ ok bytes
    → codec.to_spec bytes ≡ ok (normalized_spec engine.spec)
    → ensure_index_spec engine codec s rows meta ix ≡ ok (meta', ix')
    → ensure_index_spec engine codec s' rows' meta' ix' ≡ ok (meta', ix')
unfolding ensure_index_spec
ensure_index_spec_settles engine codec s s' rows rows' meta meta' ix ix' bytes writes reads h =
    let spec = normalized_spec engine.spec in
    let (decision, decided, carried) =
      decided-Carried engine codec spec bytes s rows meta ix _ (meta', ix') refl (rw writes at h) in
    elim carried [
      | inl (l, idle, same, same_ix) ↦ rw (writes, same, same_ix, decided, idle) refl
      | inr settled ↦ rw (writes, settled-decision codec spec bytes reads meta' settled) refl
    ]
