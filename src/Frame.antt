-- ===== src/Frame.antt =====
-- crates/topodb/src/codec.rs: the frames in which a table keeps its values, raw or compressed. The
-- `lz4_flex` crate is a parameter, with what the code relies on as its laws.
pub mod RoundTrip
pub mod Tests
use topo_db.Prelude.{
  ℕ, suc, ◌+◌, ◌*◌, ◌/◌, ◌^◌, ◌<◌, ◌≡◌, Bool, ◌&&◌, Option, none, some, List, [], ◌∷◌, length, ltb,
  leb, ◌==◌, if◌then◌else◌,
}
use topo_db.Prelude.Outcome.{Result, ok, err, encoding}

pub record Lz4 : Type 0 where
  pub compress_prepend_size : List ℕ → List ℕ
  pub decompress_size_prepended : List ℕ → Option (List ℕ)

-- `u32::from_le_bytes` of the first four bytes
unfoldable pub declared_len : List ℕ → Option ℕ
declared_len (a ∷ b ∷ c ∷ d ∷ rest) = some (a + b * 2 ^ 8 + c * 2 ^ 16 + d * 2 ^ 24)
declared_len _ = none

-- Decompression undoes compression, and the size stands before the compressed bytes.
pub record IsLz4 (lz4 : Lz4) : Type 0 where
  pub undoes :
      (raw : List ℕ)
      → length raw < 2 ^ 32
      → lz4.decompress_size_prepended (lz4.compress_prepend_size raw) ≡ some raw
  pub declares :
      (raw : List ℕ)
      → length raw < 2 ^ 32
      → declared_len (lz4.compress_prepend_size raw) ≡ some (length raw)

abbrev pub max_decompressed_len : ℕ
max_decompressed_len = 256 * 1024 * 1024

-- Whether compression pays.
abbrev pub is_smaller : List ℕ → List ℕ → Bool
is_smaller c raw = leb 512 (length raw) && leb (length c) (length raw * 9 / 10)

module _ (lz4 : Lz4) where
  unfoldable pub frame_value : List ℕ → List ℕ
  frame_value raw =
      let c = lz4.compress_prepend_size raw in if is_smaller c raw then 2 ∷ c else 0 ∷ raw

  unfoldable pub decompressed : Option (List ℕ) → Result (List ℕ)
  decompressed none = err (encoding "lz4")
  decompressed (some raw) = ok raw

  unfoldable pub unframe_lz4 : List ℕ → Option ℕ → Result (List ℕ)
  unfolding decompressed
  unframe_lz4 r none = err (encoding "truncated lz4 frame")
  unframe_lz4 r (some n) =
      if ltb max_decompressed_len n
      then err (encoding "lz4 frame declares more bytes than the cap")
      else decompressed (lz4.decompress_size_prepended r)

  unfoldable pub unframe_value : List ℕ → Result (List ℕ)
  unfolding unframe_lz4 declared_len
  unframe_value [] = err (encoding "empty framed value")
  unframe_value (tag ∷ r) =
      if tag == 0
      then ok r
      else if tag == 2
      then unframe_lz4 r (declared_len r)
      else err (encoding "unknown value codec")
