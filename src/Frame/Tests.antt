-- ===== src/Frame/Tests.antt =====
-- The frames of crates/topodb/src/codec.rs at concrete inputs, with a codec that stores its bytes.
use topo_db.Prelude.{
  ℕ, ◌+◌, ◌*◌, ◌/◌, ◌%◌, ◌^◌, ◌<◌, ◌≤◌, ◌≡◌, ◌↔◌, ◌⊎◌, refl, ap, arith, false, some, List, [], ◌∷◌,
  ◌++◌, length, drop,
}
use topo_db.Prelude.Outcome.{ok, err, encoding}
use topo_db.Frame.{
  Lz4, IsLz4, is_smaller, max_decompressed_len, frame_value, unframe_value, unframe_lz4,
  declared_len,
}
use topo_db.Frame.RoundTrip.{unframe_value-frame_value}

abbrev le_bytes : ℕ → List ℕ
le_bytes n = n % 2 ^ 8 ∷ n / 2 ^ 8 % 2 ^ 8 ∷ n / 2 ^ 16 % 2 ^ 8 ∷ n / 2 ^ 24 % 2 ^ 8 ∷ []

abbrev pub stored : Lz4
stored = record {
  compress_prepend_size = λ raw. le_bytes (length raw) ++ raw;
  decompress_size_prepended = λ r. some (drop 4 r);
}

le_value :
    (n : ℕ)
    → n < 2 ^ 32
    → n % 2 ^ 8
        + n / 2 ^ 8 % 2 ^ 8 * 2 ^ 8
        + n / 2 ^ 16 % 2 ^ 8 * 2 ^ 16
        + n / 2 ^ 24 % 2 ^ 8 * 2 ^ 24
      ≡ n
le_value n h = omega arith

pub stored-IsLz4 : IsLz4 stored
unfolding declared_len
stored-IsLz4 = record {
  undoes = λ raw h. refl;
  declares = λ raw h. ap some (le_value (length raw) h);
}

unknown_codec : unframe_value stored (1 ∷ []) ≡ err (encoding "unknown value codec")
unfolding unframe_value
unknown_codec = refl

short_frame : unframe_value stored (2 ∷ 5 ∷ []) ≡ err (encoding "truncated lz4 frame")
unfolding unframe_value unframe_lz4 declared_len
short_frame = refl

abbrev two_bytes : List ℕ
two_bytes = 42 ∷ 42 ∷ []

unframe_value-frame_value_example :
    (unframe_value stored (frame_value stored two_bytes) ≡ ok two_bytes) ↔ (
      (is_smaller (stored.compress_prepend_size two_bytes) two_bytes ≡ false)
      ⊎ (length two_bytes ≤ max_decompressed_len))
unframe_value-frame_value_example =
    unframe_value-frame_value stored two_bytes stored-IsLz4 (omega arith)
