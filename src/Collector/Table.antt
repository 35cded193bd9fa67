-- ===== src/Collector/Table.antt =====
-- The hash table of the graph finds the node of an object: it is the table of a deep copy, seen
-- through the nodes that its entries name.
use am_lang_core.Base.{
  ℕ, zero, suc, ◌+◌, ◌-◌, ◌%◌, ◌≤◌, ◌<◌, ◌≡◌, ◌≢◌, inl, inr, refl, ap, List, [], ◌∷◌, ◌++◌, arith,
  ◌==◌, if◌then◌else◌, length, get_or, set, All, Bool-cases,
}
use am_lang_core.CopyTable.{CopyPair, empty_pair, at, lookup_loop, insert_loop}
use am_lang_core.CopyTable.Probe.{find, Absent}
use am_lang_core.Collector.{Node, no_node, Graph, place, locate}

abbrev pub objects : List Node → List ℕ
objects [] = []
objects (n ∷ ns) = n.object ∷ objects ns

-- The number of the node of an object, plus one, or 0.
abbrev pub position : List ℕ → ℕ → ℕ
position [] p = 0
position (o ∷ os) p = if o == p then 1 else (if position os p == 0 then 0 else suc (position os p))

-- An entry as the pair of its object and itself.
abbrev pub pair_of : List ℕ → ℕ → CopyPair
pair_of os t = if t == 0 then empty_pair else record { src = get_or os (t - 1) 0; dst = t }

abbrev pub view : List ℕ → List ℕ → List CopyPair
view os [] = []
view os (t ∷ ts) = pair_of os t ∷ view os ts

at-view : (os ts : List ℕ) (k : ℕ) → at (view os ts) k ≡ pair_of os (get_or ts k 0)
at-view os [] k = refl
at-view os (t ∷ ts) zero = refl
at-view os (t ∷ ts) (suc k) = at-view os ts k

length-view : (os ts : List ℕ) → length (view os ts) ≡ length ts
length-view os [] = refl
length-view os (t ∷ ts) = ap suc (length-view os ts)

view-set : (os ts : List ℕ) (k t : ℕ) → view os (set ts k t) ≡ set (view os ts) k (pair_of os t)
view-set os [] k t = refl
view-set os (u ∷ ts) zero t = refl
view-set os (u ∷ ts) (suc k) t = ap (λ v. pair_of os u ∷ v) (view-set os ts k t)

pub get_or-objects :
    (ns : List Node) (i : ℕ) → (get_or ns i no_node).object ≡ get_or (objects ns) i 0
get_or-objects [] i = refl
get_or-objects (n ∷ ns) zero = refl
get_or-objects (n ∷ ns) (suc i) = get_or-objects ns i

abbrev pub NonZero : List ℕ → Type 0
NonZero os = All (λ o. o ≢ 0) os

-- Every entry names a node.
abbrev pub Entries : ℕ → List ℕ → Type 0
Entries n ts = All (λ t. t ≤ n) ts

get_or-NonZero : (os : List ℕ) (i : ℕ) → NonZero os → i < length os → get_or os i 0 ≢ 0
get_or-NonZero [] i nz room = absurd (omega arith)
get_or-NonZero (o ∷ os) zero nz room = nz.0
get_or-NonZero (o ∷ os) (suc i) nz room = get_or-NonZero os i nz.1 (omega arith)

get_or-Entries : (n : ℕ) (ts : List ℕ) (k : ℕ) → Entries n ts → get_or ts k 0 ≤ n
get_or-Entries n [] k e = omega arith
get_or-Entries n (t ∷ ts) zero e = e.0
get_or-Entries n (t ∷ ts) (suc k) e = get_or-Entries n ts k e.1

-- A slot is empty in the view exactly where it is empty in the table.
slot_empty :
    (os ts : List ℕ) (k : ℕ)
    → NonZero os
    → Entries (length os) ts
    → ((at (view os ts) k).src == 0) ≡ (get_or ts k 0 == 0)
slot_empty os ts k nz e = ground (
  arith,
  at-view os ts k,
  get_or-Entries (length os) ts k e,
  get_or-NonZero os (get_or ts k 0 - 1) nz,
)

module _ (g : Graph) (nz : NonZero (objects g.nodes))
    (e : Entries (length (objects g.nodes)) g.table) where
  pub locate-lookup :
      (fuel h i p : ℕ)
      → locate fuel g h i p ≡ lookup_loop fuel (view (objects g.nodes) g.table) g.table_size h i p
  unfolding locate lookup_loop
  locate-lookup zero h i p = refl
  locate-lookup (suc fuel) h i p =
      let k = (h + i) % g.table_size in
      ground (
        arith,
        at-view (objects g.nodes) g.table k,
        slot_empty (objects g.nodes) g.table k nz e,
        get_or-objects g.nodes (get_or g.table k 0 - 1),
        locate-lookup fuel h (i + 1) p,
      )

pub view-place :
    (os : List ℕ) (size h entry : ℕ) (ts : List ℕ)
    → NonZero os
    → Entries (length os) ts
    → 0 < entry
    → (fuel i : ℕ)
    → view os (place fuel ts size h i entry)
      ≡ insert_loop fuel (view os ts) size h i (get_or os (entry - 1) 0) entry
unfolding place insert_loop
view-place os size h entry ts nz e pos zero i = refl
view-place os size h entry ts nz e pos (suc fuel) i =
    let k = (h + i) % size in
    ground (
      arith,
      slot_empty os ts k nz e,
      view-set os ts k entry,
      view-place os size h entry ts nz e pos fuel (i + 1),
    )

-- Adding an object at the end changes no pair of the older entries.
pub get_or-snoc :
    (os : List ℕ) (p i : ℕ) → i < length os → get_or (os ++ p ∷ []) i 0 ≡ get_or os i 0
get_or-snoc [] p i room = absurd (omega arith)
get_or-snoc (o ∷ os) p zero room = refl
get_or-snoc (o ∷ os) p (suc i) room = get_or-snoc os p i (omega arith)

pub get_or-snoc_last : (os : List ℕ) (p : ℕ) → get_or (os ++ p ∷ []) (length os) 0 ≡ p
get_or-snoc_last [] p = refl
get_or-snoc_last (o ∷ os) p = get_or-snoc_last os p

pub view-snoc :
    (os : List ℕ) (p : ℕ) (ts : List ℕ)
    → Entries (length os) ts
    → view (os ++ p ∷ []) ts ≡ view os ts
view-snoc os p [] e = refl
view-snoc os p (t ∷ ts) e = ground (arith, get_or-snoc os p (t - 1), view-snoc os p ts e.1)

pub objects-snoc :
    (ns : List Node) (n : Node) → objects (ns ++ n ∷ []) ≡ objects ns ++ n.object ∷ []
objects-snoc [] n = refl
objects-snoc (m ∷ ns) n = ap (λ os. m.object ∷ os) (objects-snoc ns n)

pub NonZero-snoc : (os : List ℕ) (p : ℕ) → NonZero os → p ≢ 0 → NonZero (os ++ p ∷ [])
NonZero-snoc [] p nz ne = (ne, tt)
NonZero-snoc (o ∷ os) p nz ne = (nz.0, NonZero-snoc os p nz.1 ne)

pub position-snoc :
    (os : List ℕ) (p s : ℕ)
    → position os p ≡ 0
    → position (os ++ p ∷ []) s ≡ (if p == s then length os + 1 else position os s)
position-snoc [] p s new = ground arith
position-snoc (o ∷ os) p s new = ground (arith, position-snoc os p s)

pub Entries-le : (n m : ℕ) (ts : List ℕ) → n ≤ m → Entries n ts → Entries m ts
Entries-le n m [] le e = tt
Entries-le n m (t ∷ ts) le e = (omega arith, Entries-le n m ts le e.1)

Entries-set : (n : ℕ) (ts : List ℕ) (k t : ℕ) → Entries n ts → t ≤ n → Entries n (set ts k t)
Entries-set n [] k t e le = tt
Entries-set n (u ∷ ts) zero t e le = (le, e.1)
Entries-set n (u ∷ ts) (suc k) t e le = (e.0, Entries-set n ts k t e.1 le)

pub Entries-place :
    (n size h entry : ℕ) (ts : List ℕ)
    → Entries n ts
    → entry ≤ n
    → (fuel i : ℕ) → Entries n (place fuel ts size h i entry)
unfolding place
Entries-place n size h entry ts e le zero i = e
Entries-place n size h entry ts e le (suc fuel) i =
    elim (Bool-cases (get_or ts ((h + i) % size) 0 == 0)) [
      | inl free ↦ rw free (Entries-set n ts ((h + i) % size) entry e le)
      | inr taken ↦ rw taken (Entries-place n size h entry ts e le fuel (i + 1))
    ]

-- An object that the search does not find has no entry.
pub Absent-view : (os ts : List ℕ) (p : ℕ) → p ≢ 0 → find (view os ts) p ≡ 0 → Absent p (view os ts)
Absent-view os [] p ne h = tt
Absent-view os (t ∷ ts) p ne h = elim (Bool-cases ((pair_of os t).src == p)) [
  | inl hit ↦ absurd (ground arith)
  | inr other ↦ ((λ e. absurd (ground arith)), Absent-view os ts p ne (ground arith))
]

pub length-objects : (ns : List Node) → length (objects ns) ≡ length ns
length-objects [] = refl
length-objects (n ∷ ns) = ap suc (length-objects ns)
