-- ===== src/Ids/Tests.antt =====
-- Runs of the functions of crates/topodb/src/ids.rs, and the theorems at concrete inputs.
use topo_db.Prelude.{◌≡◌, refl, ◌∷◌, []}
use topo_db.Ids.{shared, id, set_insert, of, with_shared, iter_scopes}

listing : iter_scopes (with_shared (of (7 ∷ 3 ∷ 7 ∷ []))) ≡ shared ∷ id 3 ∷ id 7 ∷ []
unfolding iter_scopes with_shared of set_insert
listing = refl
