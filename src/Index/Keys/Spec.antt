-- ===== src/Index/Keys/Spec.antt =====
-- crates/topodb/src/index.rs: what a spec declares and what an index holds, apart from the code.
use topo_db.Prelude.{
  ℕ, ◌^◌, ◌<◌, ◌≡◌, ◌↔◌, ◌⊎◌, refl, sym, subst, inl, inr, Bool, true, false, ◌&&◌, ◌||◌, some,
  String, List, [], ◌∷◌,
}
use text.Mathlib.TextEquality.{eq_iff}
use text.Mathlib.Text.{◌==◌ as str_eq}
use topo_db.Prelude.Int.{ℤ}
use topo_db.Op.{PropValue, str, int, float, bool, bytes, date_time}
use topo_db.Registry.Dicts.{Dicts}
use topo_db.Index.{
  PropIndex, IndexValue, str_value, int_value, bool_value, bytes_value, date_time_value, declares,
  value_of,
}

-- The list has the pair.
abbrev pub Declared : List PropIndex → String → String → Type 0
Declared [] label prop = ⊥
Declared (p ∷ ps) label prop = ((p.label ≡ label) × (p.prop ≡ prop)) ⊎ Declared ps label prop

-- The value of a property as an index holds it; a float is not held.
pub data IsHeld : PropValue → IndexValue → Type 0 where
  held_str : (s : String) → IsHeld (str s) (str_value s)
  held_int : (i : ℤ) → IsHeld (int i) (int_value i)
  held_bool : (b : Bool) → IsHeld (bool b) (bool_value b)
  held_bytes : (b : List ℕ) → IsHeld (bytes b) (bytes_value b)
  held_date_time : (t : ℤ) → IsHeld (date_time t) (date_time_value t)

-- The ids of the property names are `u32`.
abbrev pub HasSmallIds : Dicts → Type 0
HasSmallIds dicts = (key : String) (i : ℕ) → dicts.props.by_key key ≡ some i → i < 2 ^ 32

pub both-true : (a b : Bool) → ((a && b) ≡ true) ↔ ((a ≡ true) × (b ≡ true))
both-true true b = (λ h. (refl, h), λ h. h.1)
both-true false b = (λ h. absurd (cc), λ h. absurd (let bad : false ≡ true = h.0 in cc))

pub either-true : (a b : Bool) → ((a || b) ≡ true) ↔ ((a ≡ true) ⊎ (b ≡ true))
either-true true b = (λ h. inl refl, λ h. refl)
either-true false b =
    (λ h. inr h, λ h. elim h [ inl bad ↦ absurd (let no : false ≡ true = bad in cc) | inr t ↦ t ])

pub same_truth : (a b : Bool) → ((a ≡ true) ↔ (b ≡ true)) → a ≡ b
same_truth true b h = sym (h.0 refl)
same_truth false true h = h.1 refl
same_truth false false h = refl

pub declares_iff :
    (ps : List PropIndex) (label prop : String)
    → (declares ps label prop ≡ true) ↔ Declared ps label prop
unfolding declares
declares_iff [] label prop = (λ h. absurd (cc), λ h. elim h [ ])
declares_iff (p ∷ ps) label prop =
    let pair = both-true (str_eq p.label label) (str_eq p.prop prop) in
    let more = declares_iff ps label prop in
    let split = either-true (str_eq p.label label && str_eq p.prop prop) (declares ps label prop) in
    (
      λ h. elim (split.0 h) [
        | inl here ↦
            let (l, k) = pair.0 here in inl ((eq_iff p.label label).0 l, (eq_iff p.prop prop).0 k)
        | inr rest ↦ inr (more.0 rest)
      ],
      λ h. split.1 (elim h [
        | inl (l, k) ↦ inl (pair.1 ((eq_iff p.label label).1 l, (eq_iff p.prop prop).1 k))
        | inr rest ↦ inr (more.1 rest)
      ]),
    )

IsHeld-transport : (v : PropValue) (w w' : IndexValue) → IsHeld v w → some w ≡ some w' → IsHeld v w'
IsHeld-transport v w w' h e = subst (λ (x : IndexValue). IsHeld v x) (cc) h

pub IsHeld-value_of : (v : PropValue) (w : IndexValue) → value_of v ≡ some w → IsHeld v w
unfolding value_of
IsHeld-value_of (str s) w h = IsHeld-transport (str s) (str_value s) w (held_str s) h
IsHeld-value_of (int i) w h = IsHeld-transport (int i) (int_value i) w (held_int i) h
IsHeld-value_of (float b) w h = absurd (cc)
IsHeld-value_of (bool b) w h = IsHeld-transport (bool b) (bool_value b) w (held_bool b) h
IsHeld-value_of (bytes b) w h = IsHeld-transport (bytes b) (bytes_value b) w (held_bytes b) h
IsHeld-value_of (date_time t) w h =
    IsHeld-transport (date_time t) (date_time_value t) w (held_date_time t) h

pub value_of-IsHeld : (v : PropValue) (w : IndexValue) → IsHeld v w → value_of v ≡ some w
unfolding value_of
value_of-IsHeld v w (held_str s) = refl
value_of-IsHeld v w (held_int i) = refl
value_of-IsHeld v w (held_bool b) = refl
value_of-IsHeld v w (held_bytes b) = refl
value_of-IsHeld v w (held_date_time t) = refl
