-- ===== src/Index/Tests.antt =====
-- Runs of the functions of crates/topodb/src/prop_index.rs, and the theorems at concrete inputs.
use topo_db.Prelude.{
  ℕ, ◌^◌, ◌<◌, ◌≡◌, ◌≢◌, ◌↔◌, refl, arith, Bool, true, ◌&&◌, none, some, List, [], ◌∷◌, All, ltb,
}
use topo_db.Prelude.Int.{pos}
use topo_db.Prelude.Bytes.{Bytes, has_key}
use topo_db.Prelude.Bytes.Laws.{IsByte}
use topo_db.Ids.{shared}
use topo_db.Op.{int}
use topo_db.Registry.{blank}
use topo_db.Registry.Dicts.{Dicts}
use topo_db.Read.Traverse.{NodeRecord, is_member}
use topo_db.Index.{IndexSpec, int_value}
use topo_db.Index.Keys.{normalize_str, index_key, lookup, index_node, unindex_node}
use topo_db.Index.Keys.Exact.{member-lookup}
use topo_db.Index.Keys.Upkeep.{reindexed_table}
use topo_db.Index.Keys.Spec.{HasSmallIds}
use topo_db.Index.Keys.Declared.{IsUnder, lookup_declared}

abbrev same : List ℕ → List ℕ
same cs = cs

-- Runs of white space are one space, and none is left at the ends.
one_space : normalize_str same (32 ∷ 65 ∷ 9 ∷ 32 ∷ 66 ∷ 10 ∷ []) ≡ 65 ∷ 32 ∷ 66 ∷ []
unfolding normalize_str
one_space = refl

abbrev ages : IndexSpec
ages = record { equality = record { label = "Person"; prop = "age" } ∷ []; text = [] }

abbrev names : Dicts
names = record {
  labels = blank;
  types = blank;
  props = record { by_key = λ s. some 7; by_id = λ i. none; next = 8 };
  models = blank;
}

abbrev nobody : NodeRecord
nobody = record { id = 10; scope = shared; label = "Person"; props = []; embedding = none }

abbrev of_five : NodeRecord
of_five = record nobody { props = ("age", int (pos 5)) ∷ ("nick", int (pos 6)) ∷ [] }

abbrev are_bytes : Bytes → Bool
are_bytes [] = true
are_bytes (b ∷ k) = ltb b 256 && are_bytes k

are_bytes-IsByte : (k : Bytes) → are_bytes k ≡ true → All IsByte k
are_bytes-IsByte [] h = tt
are_bytes-IsByte (b ∷ k) h = (ground arith, are_bytes-IsByte k (ground arith))

-- The key of the age five of the node in slot 3.
abbrev age_key : Bytes
age_key = 0 ∷ 0 ∷ 0 ∷ 7 ∷ 1 ∷ 128 ∷ 0 ∷ 0 ∷ 0 ∷ 0 ∷ 0 ∷ 0 ∷ 5 ∷ 0 ∷ 0 ∷ 0 ∷ 0 ∷ 0 ∷ 0 ∷ 0 ∷ 3 ∷ []

one_key : reindexed_table same ages [] names names nobody of_five 3 ≡ age_key ∷ []
unfolding index_node unindex_node
one_key = refl

bytes : All (λ (k : Bytes). All IsByte k) (age_key ∷ [])
bytes = (are_bytes-IsByte age_key refl, tt)

member-lookup_example :
    is_member 3 (lookup same (age_key ∷ []) 7 (int_value (pos 5)))
    ≡ has_key (age_key ∷ []) (index_key same 7 (int_value (pos 5)) 3)
member-lookup_example =
    member-lookup same (age_key ∷ []) 7 (int_value (pos 5)) 3 bytes (omega arith)

names-HasSmallIds : HasSmallIds names
names-HasSmallIds key i h = let same_id : 7 ≡ i = cc in omega (arith, same_id)

lookup_declared_example :
    (let table = reindexed_table same ages [] names names nobody of_five 3 in
      ((is_member 3 (lookup same table 7 (int_value (pos 5))) ≡ true)
        ↔ IsUnder same ages names of_five 3 7 (int_value (pos 5)) of_five.props)
      × ((other : ℕ)
          → other < 2 ^ 64
          → other ≢ 3
          → is_member other (lookup same table 7 (int_value (pos 5)))
            ≡ is_member other (lookup same [] 7 (int_value (pos 5)))))
unfolding has_key
lookup_declared_example =
    lookup_declared same ages [] names names nobody of_five 3 7 (int_value (pos 5)) (omega arith)
      (omega arith) names-HasSmallIds names-HasSmallIds tt (rw one_key bytes)
      (λ h. absurd (cc), λ h. elim h [ ])
