-- ===== src/Frame/RoundTrip.antt =====
-- crates/topodb/src/codec.rs: which values come back from their frame.
use topo_db.Prelude.{
  ℕ, ◌+◌, ◌<◌, ◌≤◌, ◌^◌, ◌≡◌, ◌↔◌, ◌⊎◌, inl, inr, refl, sym, subst, ◌∙◌, arith, true, false, List,
  ◌∷◌, length, Bool-cases, ltb, if◌then◌else◌,
}
use topo_db.Prelude.Outcome.{ok, err, encoding}
use topo_db.Frame.{
  Lz4, IsLz4, is_smaller, max_decompressed_len, frame_value, unframe_value, unframe_lz4,
  declared_len, decompressed,
}

capped-ok :
    (n : ℕ) (raw : List ℕ)
    → ((if ltb max_decompressed_len n
          then err (encoding "lz4 frame declares more bytes than the cap")
          else ok raw)
        ≡ ok raw)
      ↔ (n ≤ max_decompressed_len)
capped-ok n raw = ground arith

unframe_compressed :
    (lz4 : Lz4) (raw : List ℕ)
    → IsLz4 lz4
    → length raw < 2 ^ 32
    → (unframe_lz4 lz4
          (lz4.compress_prepend_size raw)
          (declared_len (lz4.compress_prepend_size raw))
        ≡ ok raw)
      ↔ (length raw ≤ max_decompressed_len)
unfolding unframe_lz4 decompressed
unframe_compressed lz4 raw laws h =
    rw (laws.declares raw h, laws.undoes raw h) (capped-ok (length raw) raw)

frame_small :
    (lz4 : Lz4) (raw : List ℕ)
    → is_smaller (lz4.compress_prepend_size raw) raw ≡ true
    → frame_value lz4 raw ≡ 2 ∷ lz4.compress_prepend_size raw
unfolding frame_value
frame_small lz4 raw h = rw h

frame_large :
    (lz4 : Lz4) (raw : List ℕ)
    → is_smaller (lz4.compress_prepend_size raw) raw ≡ false
    → frame_value lz4 raw ≡ 0 ∷ raw
unfolding frame_value
frame_large lz4 raw h = rw h

reframed :
    (lz4 : Lz4) (raw framed : List ℕ)
    → frame_value lz4 raw ≡ framed
    → {P : Type 0} → ((unframe_value lz4 framed ≡ ok raw) ↔ P)
    → ((unframe_value lz4 (frame_value lz4 raw) ≡ ok raw) ↔ P)
reframed lz4 raw framed e {P} h = subst (λ f. (unframe_value lz4 f ≡ ok raw) ↔ P) (sym e) h

-- A value comes back from its frame exactly when it is stored raw or has at most 256 MiB: a longer
-- one that compresses well is written, and then refused by the reader. The value is below 4 GiB.
pub unframe_value-frame_value :
    (lz4 : Lz4) (raw : List ℕ)
    → IsLz4 lz4
    → length raw < 2 ^ 32
    → (unframe_value lz4 (frame_value lz4 raw) ≡ ok raw) ↔ (
        (is_smaller (lz4.compress_prepend_size raw) raw ≡ false)
        ⊎ (length raw ≤ max_decompressed_len))
unfolding unframe_value
unframe_value-frame_value lz4 raw laws h =
    elim (Bool-cases (is_smaller (lz4.compress_prepend_size raw) raw)) [
      | inl small ↦
          let (f, g) = unframe_compressed lz4 raw laws h in
          reframed lz4 raw (2 ∷ lz4.compress_prepend_size raw) (frame_small lz4 raw small) (
            λ e. inr (f e),
            λ d. elim d [
              | inl large ↦ absurd (let bad : true ≡ false = sym small ∙ large in cc)
              | inr fits ↦ g fits
            ],
          )
      | inr large ↦
          reframed lz4 raw (0 ∷ raw) (frame_large lz4 raw large) (λ e. inl large, λ d. refl)
    ]

-- A frame is at most one byte longer than its value.
pub length-frame_value : (lz4 : Lz4) (raw : List ℕ) → length (frame_value lz4 raw) ≤ length raw + 1
unfolding frame_value
length-frame_value lz4 raw = ground arith
