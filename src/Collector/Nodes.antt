-- ===== src/Collector/Nodes.antt =====
-- A graph in order: its hash table finds the node of every object, and adding keeps it so.
use am_lang_core.Base.{
  ℕ, zero, suc, ◌+◌, ◌-◌, ◌*◌, ◌%◌, ◌^◌, ◌≤◌, ◌<◌, ◌≡◌, ◌≢◌, inl, inr, refl, sym, ap, ◌∙◌, true,
  false, List, [], ◌∷◌, ◌++◌, arith, ltb, ◌==◌, if◌then◌else◌, length, length-append, get_or,
  replicate, some, Bool-cases,
}
use am_lang_core.CopyTable.{empty_pair, insert_loop}
use am_lang_core.CopyTable.Probe.{find, IsTable, lookup-find}
use am_lang_core.CopyTable.Insert.{occupied, Inserts, insert_loop-Inserts}
use am_lang_core.CopyTable.Record.{empty-IsTable}
use am_lang_core.Collector.{
  Node, Graph, cycle_hash, home, place, cycle_add, locate, table_size_loop, cycle_init,
}
use am_lang_core.Collector.Table.{
  objects, position, view, NonZero, Entries, locate-lookup, view-place, view-snoc, get_or-snoc_last,
  objects-snoc, NonZero-snoc, position-snoc, Entries-le, Entries-place, Absent-view, length-objects,
}

abbrev pub start_of : ℕ → ℕ → ℕ
start_of size p = cycle_hash p % size

pub record IsIndexed (os ts : List ℕ) (size : ℕ) : Type 0 where
  pub table : IsTable (start_of size) (view os ts) size
  pub taken : occupied (view os ts) ≡ length os
  pub names : (p : ℕ) → p ≢ 0 → find (view os ts) p ≡ position os p
  pub entries : Entries (length os) ts
  pub non_null : NonZero os

-- The table of the graph indexes the objects of its nodes.
abbrev pub IsGraph : Graph → Type 0
IsGraph g = IsIndexed (objects g.nodes) g.table g.table_size

-- Looking an object up gives the number of its node, plus one, or 0 if it has no node.
pub locate-position :
    (g : Graph) (p : ℕ)
    → IsGraph g
    → p ≢ 0
    → locate g.table_size g (home g p) 0 p ≡ position (objects g.nodes) p
locate-position g p is ne =
    locate-lookup g is.non_null is.entries g.table_size (home g p) 0 p
    ∙ lookup-find (start_of g.table_size) (view (objects g.nodes) g.table) g.table_size p is.table
        ne
    ∙ is.names p ne

start_of-lt : (size p : ℕ) → 0 < size → start_of size p < size
start_of-lt size p h = grind arith

module _ (os ts : List ℕ) (size p : ℕ) (is : IsIndexed os ts size) (ne : p ≢ 0)
    (new : position os p ≡ 0) (room : length os < size) where
  wider : view (os ++ p ∷ []) ts ≡ view os ts
  wider = view-snoc os p ts is.entries

  put :
      Inserts
        (start_of size)
        (view os ts)
        size
        p
        (length os + 1)
        (insert_loop size (view os ts) size (start_of size p) 0 p (length os + 1))
  put =
      insert_loop-Inserts (start_of size) (view os ts) size is.table p (length os + 1) ne
        (Absent-view os ts p ne (is.names p ne ∙ new)) (start_of-lt size p is.table.positive)
        (omega (arith, is.taken))

  placed :
      view (os ++ p ∷ []) (place size ts size (start_of size p) 0 (length os + 1))
      ≡ insert_loop size (view os ts) size (start_of size p) 0 p (length os + 1)
  placed =
      view-place (os ++ p ∷ []) size (start_of size p) (length os + 1) ts
        (NonZero-snoc os p is.non_null ne)
        (Entries-le (length os) (length (os ++ p ∷ [])) ts
          (omega (arith, length-append os (p ∷ []))) is.entries)
        (omega arith) size 0
      ∙ ap
          (λ v.
            insert_loop size v size (start_of size p) 0
              (get_or (os ++ p ∷ []) (length os + 1 - 1) 0) (length os + 1))
          wider
      ∙ ap (λ q. insert_loop size (view os ts) size (start_of size p) 0 q (length os + 1)) last
    where
      last : get_or (os ++ p ∷ []) (length os + 1 - 1) 0 ≡ p
      last = rw one_less (get_or-snoc_last os p)
        where
          one_less : length os + 1 - 1 ≡ length os
          one_less = omega arith

  place-IsIndexed :
      IsIndexed (os ++ p ∷ []) (place size ts size (start_of size p) 0 (length os + 1)) size
  place-IsIndexed = record {
    table = rw placed put.in_order;
    taken = rw placed (put.taken ∙ omega (arith, is.taken, length-append os (p ∷ [])));
    names = rw placed (λ q nz.
        put.finds q nz
        ∙ ap (λ k. if p == q then length os + 1 else k) (is.names q nz)
        ∙ sym (position-snoc os p q new));
    entries =
        Entries-place (length (os ++ p ∷ [])) size (start_of size p) (length os + 1) ts
          (Entries-le (length os) (length (os ++ p ∷ [])) ts
            (omega (arith, length-append os (p ∷ []))) is.entries)
          (omega (arith, length-append os (p ∷ []))) size 0;
    non_null = NonZero-snoc os p is.non_null ne;
  }

-- Adding an object that has no node yet, with room in the table, keeps the graph in order.
pub cycle_add-IsGraph :
    (g : Graph) (p refs : ℕ)
    → IsGraph g
    → p ≢ 0
    → position (objects g.nodes) p ≡ 0
    → length g.nodes < g.table_size
    → IsGraph (cycle_add g p refs)
unfolding cycle_add
cycle_add-IsGraph g p refs is ne new room =
    let added : Node = record { object = p; references = refs; internal = 0; live = false } in
    rw (objects-snoc g.nodes added) (
      rw (sym (length-objects g.nodes)) (
        place-IsIndexed (objects g.nodes) g.table g.table_size p is ne new
          (omega (arith, length-objects g.nodes))))

view-zeros : (n : ℕ) → view [] (replicate n 0) ≡ replicate n empty_pair
view-zeros zero = refl
view-zeros (suc n) = ap (λ v. empty_pair ∷ v) (view-zeros n)

occupied-zeros : (n : ℕ) → occupied (replicate n empty_pair) ≡ 0
occupied-zeros zero = refl
occupied-zeros (suc n) = ground (arith, occupied-zeros n)

find-zeros : (n p : ℕ) → p ≢ 0 → find (replicate n empty_pair) p ≡ 0
find-zeros zero p ne = refl
find-zeros (suc n) p ne = ground (arith, find-zeros n p)

Entries-zeros : (n : ℕ) → Entries 0 (replicate n 0)
Entries-zeros zero = tt
Entries-zeros (suc n) = (omega arith, Entries-zeros n)

ge_of_ltb : (a b : ℕ) → ltb a b ≡ false → b ≤ a
ge_of_ltb a b h = ground arith

table_size_loop-le : (fuel count size : ℕ) → size ≤ table_size_loop fuel count size
unfolding table_size_loop
table_size_loop-le zero count size = omega arith
table_size_loop-le (suc fuel) count size =
    ground (arith, table_size_loop-le fuel count (size * 2), table_size_loop-le fuel count size)

abbrev pub pow2 : ℕ → ℕ
pow2 zero = 1
pow2 (suc k) = 2 * pow2 k

table_size_loop-ge :
    (fuel count size : ℕ)
    → count * 2 ≤ size * pow2 fuel
    → count * 2 ≤ table_size_loop fuel count size
unfolding table_size_loop
table_size_loop-ge zero count size h = omega arith
table_size_loop-ge (suc fuel) count size h = elim (Bool-cases (ltb size (count * 2))) [
  | inl small ↦ rw small (table_size_loop-ge fuel count (size * 2) (grind arith))
  | inr large ↦
      rw large (omega (arith, table_size_loop-le fuel count size, ge_of_ltb size (count * 2) large))
]

-- Where the workspace was allocated, the new graph is in order and has no nodes, and its table has two
-- slots for every object that is expected.
pub cycle_init-IsGraph :
    (count : ℕ)
    → count < 2 ^ 63
    → (g : Graph) × (cycle_init true count ≡ some g)
      × IsGraph g
      × (g.nodes ≡ [])
      × (g.queue ≡ [])
      × (g.marking ≡ false)
      × (count * 2 ≤ g.table_size)
unfolding cycle_init
cycle_init-IsGraph count small =
    let size = table_size_loop 64 count 16 in
    (
      record {
        nodes = [];
        table = replicate size 0;
        table_size = size;
        queue = [];
        marking = false;
      },
      refl,
      record {
        table =
            rw (view-zeros size)
              (empty-IsTable (start_of size) size (omega (arith, table_size_loop-le 64 count 16)));
        taken = rw (view-zeros size) (occupied-zeros size);
        names = rw (view-zeros size) (λ p ne. find-zeros size p ne);
        entries = Entries-zeros size;
        non_null = tt;
      },
      refl,
      refl,
      refl,
      table_size_loop-ge 64 count 16 (omega arith),
    )
