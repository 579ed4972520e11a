-- ===== src/Adj/Codec.antt =====
-- crates/topodb/src/adj.rs: `write_varint`, `read_varint`, `zigzag` and `unzigzag`.
-- A byte slice is a list of numbers below 256, an `i64` is its bit pattern below 2 ^ 64.
use Prim.Native.Nat.{bit_and, bit_or, bit_xor}
use topo_db.Prelude.{
  ℕ, zero, suc, ◌+◌, ◌-◌, ◌*◌, ◌/◌, ◌%◌, ◌^◌, ◌<◌, List, [], ◌∷◌, ◌++◌, leb, ◌==◌, if◌then◌else◌,
}
use topo_db.Prelude.Outcome.{Result, ok, err, encoding}

abbrev pub u64_mod : ℕ
u64_mod = 2 ^ 64

abbrev pub IsU64 : ℕ → Type 0
IsU64 v = v < u64_mod

abbrev pub IsByte : ℕ → Type 0
IsByte b = b < 256

-- `while value >= 0x80`. The fuel bounds the rounds: each drops seven bits.
unfoldable pub write_varint_loop : ℕ → List ℕ → ℕ → List ℕ
write_varint_loop zero out value = out ++ (value % 256) ∷ []
write_varint_loop (suc fuel) out value =
    let rest =
      write_varint_loop fuel (out ++ (bit_or (bit_and (value % 256) 0x7f) 0x80) ∷ [])
        (value / 2 ^ 7) in
    if leb 0x80 value then rest else out ++ (value % 256) ∷ []

-- Nine rounds leave less than seven bits of a `u64`.
unfoldable pub write_varint : List ℕ → ℕ → List ℕ
unfolding write_varint_loop
write_varint out value = write_varint_loop 9 out value

-- One round of the loop of `read_varint`: the shifts are 0, 7, ..., 63, and `shift` counts them.
-- `rounds` is the number of shifts left.
unfoldable pub read_varint_loop : ℕ → List ℕ → ℕ → ℕ → Result (ℕ × List ℕ)
read_varint_loop zero input value shift = err (encoding "overflowing adjacency varint")
read_varint_loop (suc rounds) [] value shift = err (encoding "truncated adjacency varint")
read_varint_loop (suc rounds) (byte ∷ rest) value shift =
    let value' = bit_or value (bit_and byte 0x7f * 2 ^ shift % u64_mod) in
    let more = read_varint_loop rounds rest value' (shift + 7) in
    if bit_and byte 0x80 == 0
    then ok (value', rest)
    else if shift == 63
    then err (encoding "overflowing adjacency varint")
    else more

-- `(0..64).step_by(7)` has ten values. The rest of the input is returned with the number.
unfoldable pub read_varint : List ℕ → Result (ℕ × List ℕ)
unfolding read_varint_loop
read_varint input = read_varint_loop 10 input 0 0

-- `value >> 63` of an `i64` is arithmetic: all ones for a negative pattern.
unfoldable pub zigzag : ℕ → ℕ
zigzag value = bit_xor (value * 2 % u64_mod) (if leb (2 ^ 63) value then u64_mod - 1 else 0)

-- `-((value & 1) as i64)`
unfoldable pub unzigzag : ℕ → ℕ
unzigzag value = bit_xor (value / 2) ((u64_mod - value % 2) % u64_mod)
