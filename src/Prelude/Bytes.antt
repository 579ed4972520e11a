-- ===== src/Prelude/Bytes.antt =====
-- Byte strings: big-endian numbers, the order of keys, and a table that has keys only, as its
-- ascending list.
pub mod Laws
use Prim.Native.Nat.{ℕ, zero, suc, ◌+◌, ◌*◌, ◌/◌, ◌%◌, ◌^◌}
use mathlib.Core.Bool.{Bool, true, false, ◌&&◌, ◌||◌, not}
use mathlib.Core.List.{List, [], ◌∷◌}
use topo_db.Prelude.Tests.{ltb, ◌==◌, if◌then◌else◌}

abbrev pub Bytes : Type 0
Bytes = List ℕ

-- `to_be_bytes` of a number of so many bytes
unfoldable pub be_bytes : ℕ → ℕ → Bytes
be_bytes zero n = []
be_bytes (suc w) n = (n / 256 ^ w % 256) ∷ be_bytes w n

-- `from_be_bytes`
unfoldable pub of_be : ℕ → Bytes → ℕ
of_be acc [] = acc
of_be acc (b ∷ bs) = of_be (acc * 256 + b) bs

unfoldable pub same_key : Bytes → Bytes → Bool
same_key [] [] = true
same_key (a ∷ as') (b ∷ bs) = a == b && same_key as' bs
same_key _ _ = false

unfoldable pub lt_key : Bytes → Bytes → Bool
lt_key [] [] = false
lt_key [] (b ∷ bs) = true
lt_key (a ∷ as') [] = false
lt_key (a ∷ as') (b ∷ bs) = ltb a b || (a == b && lt_key as' bs)

unfoldable pub starts_with : Bytes → Bytes → Bool
starts_with key [] = true
starts_with [] (p ∷ prefix) = false
starts_with (k ∷ key) (p ∷ prefix) = k == p && starts_with key prefix

abbrev pub KeyTable : Type 0
KeyTable = List Bytes

unfoldable pub has_key : KeyTable → Bytes → Bool
unfolding same_key
has_key [] k = false
has_key (j ∷ ks) k = same_key j k || has_key ks k

unfoldable pub insert_key : KeyTable → Bytes → KeyTable
unfolding lt_key
insert_key [] k = k ∷ []
insert_key (j ∷ ks) k =
    if lt_key k j then k ∷ (j ∷ ks) else j ∷ (if lt_key j k then insert_key ks k else ks)

unfoldable pub remove_key : KeyTable → Bytes → KeyTable
unfolding same_key
remove_key [] k = []
remove_key (j ∷ ks) k = let rest = remove_key ks k in if same_key j k then rest else j ∷ rest

-- `range(low..=high)`
unfoldable pub range_keys : Bytes → Bytes → KeyTable → KeyTable
unfolding lt_key
range_keys low high [] = []
range_keys low high (k ∷ ks) =
    let rest = range_keys low high ks in
    if not (lt_key k low) && not (lt_key high k) then k ∷ rest else rest
