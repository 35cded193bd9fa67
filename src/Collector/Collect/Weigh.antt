-- ===== src/Collector/Collect/Weigh.antt =====
-- What the weighed graph says of a node: how many owning pointers lead to it, and whether it is a root.
use am_lang_core.Base.{
  ℕ, zero, suc, ◌+◌, ◌-◌, ◌<◌, ◌≡◌, ◌≢◌, ◌⊎◌, ◌↔◌, inl, inr, refl, sym, ap, ◌∙◌, Bool, true, not,
  ◌&&◌, ◌||◌, List, [], ◌∷◌, arith, leb, ◌==◌, if◌then◌else◌, length, length-set, get_or,
  Bool-cases, ==_iff,
}
use am_lang_core.Collector.{Node, Graph, node, count_internal, cycle_edge, edges_loop}
use am_lang_core.Collector.Table.{objects, position, length-objects, get_or-objects}
use am_lang_core.Collector.Nodes.{locate-position}
use am_lang_core.Collector.Marking.{get_or-set, objects-set, position-lt}
use am_lang_core.Collector.Reach.{IsRoot}
use am_lang_core.Collector.Collect.{Heap, owned_edges, count_loop, pin, pin_loop, weigh}
use am_lang_core.Collector.Collect.Build.{IsBuilt, cycle_edge-IsBuilt}

-- How often a pointer of the list leads to a node.
abbrev pub hits : List ℕ → List ℕ → ℕ → ℕ
hits os [] j = 0
hits os (p ∷ ps) j = (if not (p == 0) && position os p == suc j then 1 else 0) + hits os ps j

-- The owning pointers to a node from the nodes `i` and up.
abbrev pub owners_from : List ℕ → Heap → (left i j : ℕ) → ℕ
owners_from os heap zero i j = 0
owners_from os heap (suc left) i j =
    hits os (owned_edges heap (get_or os i 0)) j + owners_from os heap left (suc i) j

-- A graph with the nodes of another, where only `internal` has moved.
record Counts (g next : Graph) (extra : ℕ → ℕ) : Type 0 where
  built : IsBuilt next
  same : objects next.nodes ≡ objects g.nodes
  internal : (j : ℕ) → j < length g.nodes → (node next j).internal ≡ (node g j).internal + extra j
  references : (j : ℕ) → (node next j).references ≡ (node g j).references

module _ (g : Graph) (b : IsBuilt g) where
  count_internal-Counts :
      (i : ℕ)
      → i < length g.nodes
      → IsBuilt (count_internal g i)
      → Counts g (count_internal g i) (λ j. if j == i then 1 else 0)
  unfolding count_internal
  count_internal-Counts i room next =
      let changed : Node = record (node g i) { internal = (node g i).internal + 1 } in
      record {
        built = next;
        same = objects-set g.nodes i changed refl;
        internal = λ j lt. ground (arith, get_or-set g.nodes i j changed room);
        references = λ j. ground (arith, get_or-set g.nodes i j changed room);
      }

Counts-refl : (g : Graph) (extra : ℕ → ℕ) → IsBuilt g → ((j : ℕ) → extra j ≡ 0) → Counts g g extra
Counts-refl g extra b none = record {
  built = b;
  same = refl;
  internal = λ j lt. omega (arith, none j);
  references = λ j. refl;
}

Counts-ext :
    {g next : Graph} {e e' : ℕ → ℕ} → ((j : ℕ) → e j ≡ e' j) → Counts g next e → Counts g next e'
Counts-ext {g} {next} same c = record {
  built = c.built;
  same = c.same;
  internal = λ j lt. c.internal j lt ∙ ap (λ k. (node g j).internal + k) (same j);
  references = c.references;
}

Counts-trans :
    {g h k : Graph} (e e' : ℕ → ℕ) → Counts g h e → Counts h k e' → Counts g k (λ j. e j + e' j)
Counts-trans {g} {h} {k} e e' a c = record {
  built = c.built;
  same = c.same ∙ a.same;
  internal = λ j lt. omega (
    arith,
    a.internal j lt,
    c.internal j (omega (arith, ap length a.same, length-objects g.nodes, length-objects h.nodes)),
  );
  references = λ j. c.references j ∙ a.references j;
}

-- A pointer before the marking, by the position of its node.
edge_eq :
    (g : Graph) (p : ℕ)
    → IsBuilt g
    → cycle_edge g p ≡ (
        if (p == 0) || (position (objects g.nodes) p == 0)
        then g
        else count_internal g (position (objects g.nodes) p - 1))
unfolding cycle_edge
edge_eq g p b = elim (Bool-cases (p == 0)) [
  | inl null ↦ ground arith
  | inr ne ↦
      let at = locate-position g p b.in_order (λ e. absurd (ground arith)) in ground (arith, b.off)
]

abbrev hit : List ℕ → ℕ → ℕ → ℕ
hit os p j = if not (p == 0) && position os p == suc j then 1 else 0

edge-Counts :
    (g : Graph) (p : ℕ)
    → IsBuilt g
    → (n : ℕ) → position (objects g.nodes) p ≡ n
    → Counts g (cycle_edge g p) (hit (objects g.nodes) p)
edge-Counts g p b zero at =
    let e : cycle_edge g p ≡ g = edge_eq g p b ∙ ground arith in
    rw e (Counts-refl g (hit (objects g.nodes) p) b (λ j. ground arith))
edge-Counts g p b (suc i) at = elim (Bool-cases (p == 0)) [
  | inl null ↦
      let e : cycle_edge g p ≡ g = edge_eq g p b ∙ ground arith in
      rw e (Counts-refl g (hit (objects g.nodes) p) b (λ j. ground arith))
  | inr ne ↦
      let less : suc i - 1 ≡ i = omega arith in
      let e : cycle_edge g p ≡ count_internal g i = edge_eq g p b ∙ ground arith in
      let built : IsBuilt (count_internal g i) = rw (sym e) (cycle_edge-IsBuilt g p b) in
      let room : i < length g.nodes =
        omega (arith, position-lt (objects g.nodes) p i at, length-objects g.nodes) in
      rw e (Counts-ext (λ j. ground arith) (count_internal-Counts g b i room built))
]

edges_loop-Counts :
    (ps : List ℕ) (g : Graph) → IsBuilt g → Counts g (edges_loop g ps) (hits (objects g.nodes) ps)
unfolding edges_loop
edges_loop-Counts [] g b = Counts-refl g (λ j. 0) b (λ j. refl)
edges_loop-Counts (p ∷ ps) g b =
    let first = edge-Counts g p b (position (objects g.nodes) p) refl in
    let rest = edges_loop-Counts ps (cycle_edge g p) first.built in
    Counts-trans (hit (objects g.nodes) p) (hits (objects g.nodes) ps) first
      (Counts-ext (λ j. ap (λ os. hits os ps j) first.same) rest)

count_loop-Counts :
    (left i : ℕ) (heap : Heap) (g : Graph)
    → IsBuilt g
    → Counts g (count_loop left i heap g) (owners_from (objects g.nodes) heap left i)
unfolding count_loop
count_loop-Counts zero i heap g b = Counts-refl g (λ j. 0) b (λ j. refl)
count_loop-Counts (suc left) i heap g b =
    let os = objects g.nodes in
    let ps = owned_edges heap (node g i).object in
    let first = edges_loop-Counts ps g b in
    let rest = count_loop-Counts left (suc i) heap (edges_loop g ps) first.built in
    let there : (node g i).object ≡ get_or os i 0 = get_or-objects g.nodes i in
    Counts-ext
      (λ j. ap (λ o. hits os (owned_edges heap o) j + owners_from os heap left (suc i) j) there)
      (Counts-trans (hits os ps) (owners_from os heap left (suc i)) first
        (Counts-ext (λ j. ap (λ o. owners_from o heap left (suc i) j) first.same) rest))

-- What keeps an object out of the collector's hands.
abbrev pub is_pinned : Heap → ℕ → Bool
is_pinned heap p = (heap p).immortal || (heap p).pending_deallocation || (heap p).native_finalizer

abbrev pinned_node : Heap → Node → Node
pinned_node heap n = if is_pinned heap n.object then record n { references = n.internal + 1 } else n

pin-node :
    (heap : Heap) (g : Graph) (i j : ℕ)
    → i < length g.nodes
    → node (pin heap g i) j ≡ (if j == i then pinned_node heap (node g i) else node g j)
unfolding pin
pin-node heap g i j room =
    let changed : Node = record (node g i) { references = (node g i).internal + 1 } in
    elim (Bool-cases (is_pinned heap (node g i).object)) [
      | inl pinned ↦ rw pinned (get_or-set g.nodes i j changed room)
      | inr free ↦ rw free (ground arith)
    ]

pin_length : (heap : Heap) (g : Graph) (i : ℕ) → length (pin heap g i).nodes ≡ length g.nodes
unfolding pin
pin_length heap g i =
    let changed : Node = record (node g i) { references = (node g i).internal + 1 } in
    elim (Bool-cases (is_pinned heap (node g i).object)) [
      | inl pinned ↦ rw pinned (length-set g.nodes i changed)
      | inr free ↦ rw free refl
    ]

pin_loop-node :
    (left i : ℕ) (heap : Heap) (g : Graph) (j : ℕ)
    → i + left ≡ length g.nodes
    → j < length g.nodes
    → node (pin_loop left i heap g) j ≡ (if leb i j then pinned_node heap (node g j) else node g j)
unfolding pin_loop
pin_loop-node zero i heap g j fits lt = ground arith
pin_loop-node (suc left) i heap g j fits lt =
    let size = pin_length heap g i in
    let first = pin-node heap g i j (omega arith) in
    let rest = pin_loop-node left (suc i) heap (pin heap g i) j (omega arith) (omega arith) in
    elim (Bool-cases (j == i)) [
      | inl same ↦ let e = (==_iff j i).0 same in rest ∙ ground (arith, ap (node g) e)
      | inr other ↦
          let same_node : node (pin heap g i) j ≡ node g j = first ∙ ground arith in
          rest ∙ rw same_node (ground arith)
    ]

pin-objects : (heap : Heap) (g : Graph) (i : ℕ) → objects (pin heap g i).nodes ≡ objects g.nodes
unfolding pin
pin-objects heap g i =
    let changed : Node = record (node g i) { references = (node g i).internal + 1 } in
    elim (Bool-cases (is_pinned heap (node g i).object)) [
      | inl pinned ↦ rw pinned (objects-set g.nodes i changed refl)
      | inr free ↦ rw free refl
    ]

pin_loop-objects :
    (left i : ℕ) (heap : Heap) (g : Graph)
    → objects (pin_loop left i heap g).nodes ≡ objects g.nodes
unfolding pin_loop
pin_loop-objects zero i heap g = refl
pin_loop-objects (suc left) i heap g =
    pin_loop-objects left (suc i) heap (pin heap g i) ∙ pin-objects heap g i

-- Weighing leaves the objects of the graph.
pub weigh-objects :
    (heap : Heap) (g : Graph) → IsBuilt g → objects (weigh heap g).nodes ≡ objects g.nodes
unfolding weigh
weigh-objects heap g b =
    pin_loop-objects (length g.nodes) 0 heap (count_loop (length g.nodes) 0 heap g)
    ∙ (count_loop-Counts (length g.nodes) 0 heap g b).same

-- After the weighing a node is a root exactly when its object is pinned, or its number of
-- references is not the number of owning pointers that lead to it from the objects of the graph.
pub weigh-IsRoot :
    (heap : Heap) (g : Graph) (j : ℕ)
    → IsBuilt g
    → j < length g.nodes
    → (node g j).internal ≡ 0
    → IsRoot (weigh heap g) j ↔ (
        (is_pinned heap (get_or (objects g.nodes) j 0) ≡ true)
        ⊎ ((node g j).references ≢ owners_from (objects g.nodes) heap (length g.nodes) 0 j))
unfolding weigh
weigh-IsRoot heap g j b lt fresh =
    let n = length g.nodes in
    let c = count_loop-Counts n 0 heap g b in
    let counted = count_loop n 0 heap g in
    let size : length counted.nodes ≡ n =
      omega (arith, ap length c.same, length-objects g.nodes, length-objects counted.nodes) in
    let final = pin_loop-node n 0 heap counted j (omega arith) (omega arith) in
    let object : (node counted j).object ≡ get_or (objects g.nodes) j 0 =
      get_or-objects counted.nodes j ∙ ap (λ os. get_or os j 0) c.same in
    let w : Node = node (pin_loop n 0 heap counted) j in
    let fin : w ≡ pinned_node heap (node counted j) = final ∙ ground arith in
    let pin_same : is_pinned heap (node counted j).object
        ≡ is_pinned heap (get_or (objects g.nodes) j 0) =
      ap (is_pinned heap) object in
    elim (Bool-cases (is_pinned heap (node counted j).object)) [
      | inl pinned ↦
          let one : w ≡ record (node counted j) { references = (node counted j).internal + 1 } =
            fin ∙ rw pinned refl in
          let more : w.references ≡ w.internal + 1 =
            ap (λ m. m.references) one ∙ ap (λ m. m.internal + 1) (sym one) in
          ((λ r. inl (sym pin_same ∙ pinned)), (λ s e. omega (arith, more)))
      | inr free ↦
          let one : w ≡ node counted j = fin ∙ rw free refl in
          let refs : w.references ≡ (node g j).references =
            ap (λ m. m.references) one ∙ c.references j in
          let inside : w.internal ≡ owners_from (objects g.nodes) heap n 0 j =
            ap (λ m. m.internal) one ∙ c.internal j lt ∙ omega (arith, fresh) in
          (
            (λ r. inr (λ e. r (refs ∙ e ∙ sym inside))),
            (λ s. elim s [
              | inl pinned ↦ absurd (cc (pin_same, free, pinned))
              | inr ne ↦ λ e. ne (sym refs ∙ e ∙ inside)
            ]),
          )
    ]
