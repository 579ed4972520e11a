-- ===== src/Read/Interval/Instants.antt =====
-- crates/topodb/src/read.rs: the predicates of `ValidInterval` against the point-in-time window of
-- `traverse`: an edge is visible at an instant from `valid_from` on and before `valid_to`.
use topo_db.Prelude.{◌≡◌, ◌↔◌, ◌⊎◌, arith, Bool, true, false, ◌&&◌, Option, none, some}
use topo_db.Prelude.Int.{ℤ, leb_ℤ, ◌≤ℤ◌, ◌<ℤ◌, max_ℤ}
use topo_db.Read.Interval.{during, overlaps, before, after, matches, lasts_past}

-- `entry.valid_from <= t && entry.valid_to.is_none_or(|vt| t < vt)`, the valid-axis gate.
unfoldable pub visible_at : ℤ → ℤ → Option ℤ → Bool
visible_at t vf vt = leb_ℤ vf t && lasts_past vt t

overlap_instant :
    (from until vf : ℤ) (vt : Option ℤ)
    → matches (overlaps from until) vf vt ≡ true
    → from <ℤ until
    → (from ≤ℤ max_ℤ from vf) × (max_ℤ from vf <ℤ until) × (visible_at (max_ℤ from vf) vf vt ≡ true)
unfolding matches visible_at
overlap_instant from until vf none m h = ground arith
overlap_instant from until vf (some vt) m h = ground arith

instant_overlap :
    (from until vf t : ℤ) (vt : Option ℤ)
    → from ≤ℤ t
    → t <ℤ until
    → visible_at t vf vt ≡ true
    → matches (overlaps from until) vf vt ≡ true
unfolding matches visible_at
instant_overlap from until vf t none h k v = ground arith
instant_overlap from until vf t (some vt) h k v = ground arith

-- Over a query interval that is not empty, `Overlaps` matches an edge exactly when some instant of
-- the interval sees it.
pub overlaps_iff_visible :
    (from until vf : ℤ) (vt : Option ℤ)
    → from <ℤ until
    → (matches (overlaps from until) vf vt ≡ true)
      ↔ ((t : ℤ) × (from ≤ℤ t) × (t <ℤ until) × (visible_at t vf vt ≡ true))
overlaps_iff_visible from until vf vt h = (
  λ m. let (p, q, r) = overlap_instant from until vf vt m h in (max_ℤ from vf, p, q, r),
  λ (t, p, q, r). instant_overlap from until vf t vt p q r,
)

-- At each instant an edge that is ever valid is either over, or visible, or still to start, and only
-- one of these.
before_visible_later :
    (t vf : ℤ) (vt : Option ℤ)
    → lasts_past vt vf ≡ true
    → ((matches (before t) vf vt ≡ true) × (visible_at t vf vt ≡ false) × (vf <ℤ t))
      ⊎ ((matches (before t) vf vt ≡ false) × (visible_at t vf vt ≡ true) × (vf ≤ℤ t))
      ⊎ ((matches (before t) vf vt ≡ false) × (visible_at t vf vt ≡ false) × (t <ℤ vf))
unfolding matches visible_at
before_visible_later t vf none h = ground arith
before_visible_later t vf (some vt) h = ground arith

-- Containment implies intersection, and an edge that is never valid matches nothing.
pub during_overlaps :
    (from until vf : ℤ) (vt : Option ℤ)
    → matches (during from until) vf vt ≡ true
    → (matches (overlaps from until) vf vt ≡ true)
      × (matches (before until) vf vt ≡ true)
      × (matches (after from) vf vt ≡ true)
unfolding matches
during_overlaps from until vf none m = ground arith
during_overlaps from until vf (some vt) m = ground arith
