-- ===== src/Adj/Chunks/Entries.antt =====
-- crates/topodb/src/adj.rs: a block with an entry added, and the two halves of a block.
use topo_db.Prelude.{
  ℕ, zero, suc, ◌+◌, ◌≤◌, ◌≡◌, refl, ap, arith, true, false, List, [], ◌∷◌, ◌++◌, length, take,
  drop, All, if◌then◌else◌,
}
use topo_db.Adj.Block.{AdjEntry, is_unsorted}
use topo_db.Adj.Block.RoundTrip.{IsSorted, is_unsorted_sound, is_unsorted_complete}
use topo_db.Adj.Chunks.{precedes, insert_entry}

-- The second list is the first with an entry put in.
abbrev pub Added : AdjEntry → List AdjEntry → List AdjEntry → Type 0
Added e es es' =
    (before : List AdjEntry) × (after : List AdjEntry) × (es ≡ before ++ after)
    × (es' ≡ before ++ e ∷ after)

pub insert_entry-Added : (es : List AdjEntry) (e : AdjEntry) → Added e es (insert_entry es e)
unfolding insert_entry
insert_entry-Added [] e = ([], [], refl, refl)
insert_entry-Added (d ∷ es) e =
    let (before, after, p, q) = insert_entry-Added es e in
    elim (precedes d e)
      as (λ b. Added e (d ∷ es) (if b then d ∷ insert_entry es e else e ∷ (d ∷ es))) [
        | true ↦ (d ∷ before, after, ap (λ r. d ∷ r) p, ap (λ r. d ∷ r) q)
        | false ↦ ([], d ∷ es, refl, refl)
      ]

pub length-insert_entry :
    (es : List AdjEntry) (e : AdjEntry) → length (insert_entry es e) ≡ length es + 1
unfolding insert_entry
length-insert_entry [] e = refl
length-insert_entry (d ∷ es) e = ground (arith, length-insert_entry es e)

pub All-insert_entry :
    (P : AdjEntry → Type 0) (es : List AdjEntry) (e : AdjEntry)
    → All P es
    → P e
    → All P (insert_entry es e)
unfolding insert_entry
All-insert_entry P [] e h p = (p, tt)
All-insert_entry P (d ∷ es) e h p =
    elim (precedes d e) as (λ b. All P (if b then d ∷ insert_entry es e else e ∷ (d ∷ es))) [
      | true ↦ (h.0, All-insert_entry P es e h.1 p)
      | false ↦ (p, h)
    ]

IsSorted-insert_entry :
    (previous : ℕ) (es : List AdjEntry) (e : AdjEntry)
    → previous ≤ e.target
    → IsSorted previous es
    → IsSorted previous (insert_entry es e)
unfolding insert_entry
IsSorted-insert_entry previous [] e le s = (le, tt)
IsSorted-insert_entry previous (d ∷ es) e le s =
    ground (arith, s.0, s.1, λ (p : d.target ≤ e.target). IsSorted-insert_entry d.target es e p s.1)

-- A sorted block stays sorted.
pub sorted-insert_entry :
    (es : List AdjEntry) (e : AdjEntry)
    → is_unsorted es ≡ false
    → is_unsorted (insert_entry es e) ≡ false
sorted-insert_entry es e s =
    is_unsorted_complete 0 (insert_entry es e)
      (IsSorted-insert_entry 0 es e (omega arith) (is_unsorted_sound es s))

IsSorted-take :
    (previous n : ℕ) (es : List AdjEntry) → IsSorted previous es → IsSorted previous (take n es)
IsSorted-take previous zero es s = tt
IsSorted-take previous (suc n) [] s = tt
IsSorted-take previous (suc n) (e ∷ es) s = (s.0, IsSorted-take e.target n es s.1)

pub IsSorted-lower :
    (low high : ℕ) (es : List AdjEntry) → low ≤ high → IsSorted high es → IsSorted low es
IsSorted-lower low high [] h s = tt
IsSorted-lower low high (e ∷ es) h s = (omega (arith, s.0), s.1)

IsSorted-drop :
    (previous n : ℕ) (es : List AdjEntry) → IsSorted previous es → IsSorted previous (drop n es)
IsSorted-drop previous zero es s = s
IsSorted-drop previous (suc n) [] s = tt
IsSorted-drop previous (suc n) (e ∷ es) s =
    IsSorted-lower previous e.target (drop n es) s.0 (IsSorted-drop e.target n es s.1)

pub sorted-take :
    (n : ℕ) (es : List AdjEntry) → is_unsorted es ≡ false → is_unsorted (take n es) ≡ false
sorted-take n es s =
    is_unsorted_complete 0 (take n es) (IsSorted-take 0 n es (is_unsorted_sound es s))

pub sorted-drop :
    (n : ℕ) (es : List AdjEntry) → is_unsorted es ≡ false → is_unsorted (drop n es) ≡ false
sorted-drop n es s =
    is_unsorted_complete 0 (drop n es) (IsSorted-drop 0 n es (is_unsorted_sound es s))

pub All-take : (P : AdjEntry → Type 0) (n : ℕ) (es : List AdjEntry) → All P es → All P (take n es)
All-take P zero es h = tt
All-take P (suc n) [] h = tt
All-take P (suc n) (e ∷ es) h = (h.0, All-take P n es h.1)

pub All-drop : (P : AdjEntry → Type 0) (n : ℕ) (es : List AdjEntry) → All P es → All P (drop n es)
All-drop P zero es h = h
All-drop P (suc n) [] h = tt
All-drop P (suc n) (e ∷ es) h = All-drop P n es h.1

pub length-take : (n : ℕ) (es : List AdjEntry) → length (take n es) ≤ n
length-take zero es = omega arith
length-take (suc n) [] = omega arith
length-take (suc n) (e ∷ es) = omega (arith, length-take n es)

pub take-drop : (n : ℕ) (es : List AdjEntry) → take n es ++ drop n es ≡ es
take-drop zero es = refl
take-drop (suc n) [] = refl
take-drop (suc n) (e ∷ es) = ap (λ r. e ∷ r) (take-drop n es)
