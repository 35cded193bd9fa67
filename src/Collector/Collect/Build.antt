-- ===== src/Collector/Collect/Build.antt =====
-- Building and weighing the graph, and what the collector then reclaims.
use mathlib.Core.Path.{subst}
use am_lang_core.Base.{
  ℕ, zero, suc, Option, sym, ◌+◌, ◌-◌, ◌*◌, ◌^◌, ◌≤◌, ◌<◌, ◌≡◌, ◌≢◌, ◌⊎◌, ◌↔◌, inl, inr, refl, ap,
  ◌∙◌, true, false, not, ◌&&◌, ◌||◌, some, List, [], ◌∷◌, ◌++◌, arith, ltb, ◌==◌, length,
  length-append, get_or, set, Bool-cases,
}
use am_lang_core.Collector.{
  Node, no_node, Graph, node, home, locate, cycle_init, cycle_add, cycle_contains, count_internal,
  cycle_edge, edges_loop, cycle_roots, mark_loop,
}
use am_lang_core.Collector.Table.{objects, position, objects-snoc}
use am_lang_core.Collector.Nodes.{IsGraph, locate-position, cycle_add-IsGraph, cycle_init-IsGraph}
use am_lang_core.Collector.Marking.{Reachable, live_count, IsLive, objects-set}
use am_lang_core.Collector.Reach.{IsUnmarked, IsRoot, mark_loop-Reachable, mark_loop-objects}
use am_lang_core.Collector.Collect.{
  Heap, owned_edges, references_of, add_objects, add_implementation, implementations_loop,
  count_loop, pin, pin_loop, build, weigh, collect_marks, is_interface,
}

-- A graph in order where nothing is marked and marking has not begun.
pub record IsBuilt (g : Graph) : Type 0 where
  pub in_order : IsGraph g
  pub none_live : live_count g.nodes ≡ 0
  pub waiting : g.queue ≡ []
  pub off : g.marking ≡ false

dead_of_none : (ns : List Node) (j : ℕ) → live_count ns ≡ 0 → (get_or ns j no_node).live ≡ false
dead_of_none [] j h = refl
dead_of_none (n ∷ ns) zero h = ground arith
dead_of_none (n ∷ ns) (suc j) h = dead_of_none ns j (ground arith)

built-IsUnmarked : (g : Graph) → IsBuilt g → IsUnmarked g
built-IsUnmarked g b = record {
  in_order = b.in_order;
  dead = λ j. dead_of_none g.nodes j b.none_live;
  none_live = b.none_live;
  waiting = b.waiting;
}

live_count-snoc :
    (ns : List Node) (n : Node) → n.live ≡ false → live_count (ns ++ n ∷ []) ≡ live_count ns
live_count-snoc [] n dead = ground arith
live_count-snoc (m ∷ ns) n dead = ground (arith, live_count-snoc ns n dead)

pub cycle_add-IsBuilt :
    (g : Graph) (p refs : ℕ)
    → IsBuilt g
    → p ≢ 0
    → position (objects g.nodes) p ≡ 0
    → length g.nodes < g.table_size
    → IsBuilt (cycle_add g p refs)
unfolding cycle_add
cycle_add-IsBuilt g p refs b ne new room = record {
  in_order = cycle_add-IsGraph g p refs b.in_order ne new room;
  none_live =
      live_count-snoc g.nodes (record { object = p; references = refs; internal = 0; live = false })
        refl
      ∙ b.none_live;
  waiting = b.waiting;
  off = b.off;
}

-- Changing the counters of a node.
live_count_kept :
    (ns : List Node) (i : ℕ) (n : Node)
    → n.live ≡ (get_or ns i no_node).live
    → live_count (set ns i n) ≡ live_count ns
live_count_kept [] i n same = refl
live_count_kept (m ∷ ns) zero n same = ground arith
live_count_kept (m ∷ ns) (suc i) n same = ground (arith, live_count_kept ns i n same)

set-IsBuilt :
    (g : Graph) (i : ℕ) (n : Node)
    → IsBuilt g
    → n.object ≡ (node g i).object
    → n.live ≡ (node g i).live
    → IsBuilt (record g { nodes = set g.nodes i n })
set-IsBuilt g i n b same live = record {
  in_order = rw (objects-set g.nodes i n same) b.in_order;
  none_live = live_count_kept g.nodes i n live ∙ b.none_live;
  waiting = b.waiting;
  off = b.off;
}

-- Before the marking an edge is counted at its node, or passed over.
pub counted_or_passed :
    (g : Graph) (p : ℕ)
    → g.marking ≡ false
    → (cycle_edge g p ≡ g)
      ⊎ (cycle_edge g p ≡ count_internal g (locate g.table_size g (home g p) 0 p - 1))
unfolding cycle_edge
counted_or_passed g p off =
    elim (Bool-cases ((p == 0) || (locate g.table_size g (home g p) 0 p == 0))) [
      | inl passed ↦ inl (ground arith)
      | inr found ↦ inr (ground arith)
    ]

count_internal-IsBuilt : (g : Graph) (i : ℕ) → IsBuilt g → IsBuilt (count_internal g i)
unfolding count_internal
count_internal-IsBuilt g i b = set-IsBuilt g i _ b refl refl

pub cycle_edge-IsBuilt : (g : Graph) (p : ℕ) → IsBuilt g → IsBuilt (cycle_edge g p)
cycle_edge-IsBuilt g p b = elim (counted_or_passed g p b.off) [
  | inl passed ↦ rw passed b
  | inr counted ↦ rw counted (count_internal-IsBuilt g (locate g.table_size g (home g p) 0 p - 1) b)
]

pub edges_loop-IsBuilt : (ps : List ℕ) (g : Graph) → IsBuilt g → IsBuilt (edges_loop g ps)
unfolding edges_loop
edges_loop-IsBuilt [] g b = b
edges_loop-IsBuilt (p ∷ ps) g b = edges_loop-IsBuilt ps (cycle_edge g p) (cycle_edge-IsBuilt g p b)

pub count_loop-IsBuilt :
    (left i : ℕ) (heap : Heap) (g : Graph) → IsBuilt g → IsBuilt (count_loop left i heap g)
unfolding count_loop
count_loop-IsBuilt zero i heap g b = b
count_loop-IsBuilt (suc left) i heap g b =
    count_loop-IsBuilt left (suc i) heap (edges_loop g (owned_edges heap (node g i).object))
      (edges_loop-IsBuilt (owned_edges heap (node g i).object) g b)

pin-IsBuilt : (heap : Heap) (g : Graph) (i : ℕ) → IsBuilt g → IsBuilt (pin heap g i)
unfolding pin
pin-IsBuilt heap g i b =
    let obj = heap (node g i).object in
    elim (Bool-cases (obj.immortal || obj.pending_deallocation || obj.native_finalizer)) [
      | inl pinned ↦ rw pinned (set-IsBuilt g i _ b refl refl)
      | inr free ↦ rw free b
    ]

pin_loop-IsBuilt :
    (left i : ℕ) (heap : Heap) (g : Graph) → IsBuilt g → IsBuilt (pin_loop left i heap g)
unfolding pin_loop
pin_loop-IsBuilt zero i heap g b = b
pin_loop-IsBuilt (suc left) i heap g b =
    pin_loop-IsBuilt left (suc i) heap (pin heap g i) (pin-IsBuilt heap g i b)

pub weigh-IsBuilt : (heap : Heap) (g : Graph) → IsBuilt g → IsBuilt (weigh heap g)
unfolding weigh
weigh-IsBuilt heap g b =
    pin_loop-IsBuilt (length g.nodes) 0 heap (count_loop (length g.nodes) 0 heap g)
      (count_loop-IsBuilt (length g.nodes) 0 heap g b)

-- No pointer of the list is null, in the graph already, or in the list twice.
abbrev pub AreNew : List ℕ → List ℕ → Type 0
AreNew os [] = Unit {0}
AreNew os (p ∷ ps) = (p ≢ 0) × (position os p ≡ 0) × AreNew (os ++ p ∷ []) ps

added_sizes :
    (g : Graph) (p refs : ℕ)
    → (length (cycle_add g p refs).nodes ≡ length g.nodes + 1)
      × ((cycle_add g p refs).table_size ≡ g.table_size)
      × (objects (cycle_add g p refs).nodes ≡ objects g.nodes ++ p ∷ [])
unfolding cycle_add
added_sizes g p refs =
    let n : Node = record { object = p; references = refs; internal = 0; live = false } in
    (omega (arith, length-append g.nodes (n ∷ [])), refl, objects-snoc g.nodes n)

add_objects-IsBuilt :
    (heap : Heap) (ps : List ℕ) (g : Graph)
    → IsBuilt g
    → AreNew (objects g.nodes) ps
    → length g.nodes + length ps < g.table_size + 1
    → IsBuilt (add_objects heap ps g)
unfolding add_objects
add_objects-IsBuilt heap [] g b new room = b
add_objects-IsBuilt heap (p ∷ ps) g b new room =
    let refs = references_of heap p in
    let sizes = added_sizes g p refs in
    add_objects-IsBuilt heap ps (cycle_add g p refs)
      (cycle_add-IsBuilt g p refs b new.0 new.1 (omega arith)) (rw sizes.2 new.2)
      (omega (arith, sizes.0, sizes.1))

contains_position :
    (g : Graph) (p : ℕ)
    → IsBuilt g
    → p ≢ 0
    → cycle_contains g p ≡ false
    → position (objects g.nodes) p ≡ 0
unfolding cycle_contains
contains_position g p b ne h = ground (arith, locate-position g p b.in_order ne)

add_implementation-IsBuilt :
    (heap : Heap) (g : Graph) (p : ℕ)
    → IsBuilt g
    → length g.nodes < g.table_size
    → IsBuilt (add_implementation heap g p)
unfolding add_implementation
add_implementation-IsBuilt heap g p b room =
    let impl = (heap p).implementation_object in
    elim (Bool-cases (
      is_interface (heap p).type_of_class
      && not (impl == 0)
      && not (heap impl).immortal
      && not (cycle_contains g impl))) [
        | inr passed ↦ rw passed b
        | inl new ↦
            let ne : impl ≢ 0 = λ e. absurd (ground arith) in
            rw new (
              cycle_add-IsBuilt g impl (references_of heap impl) b ne
                (contains_position g impl b ne (ground arith)) room)
      ]

add_implementation_sizes :
    (heap : Heap) (g : Graph) (p : ℕ)
    → (length g.nodes ≤ length (add_implementation heap g p).nodes)
      × (length (add_implementation heap g p).nodes ≤ length g.nodes + 1)
      × ((add_implementation heap g p).table_size ≡ g.table_size)
unfolding add_implementation
add_implementation_sizes heap g p =
    let impl = (heap p).implementation_object in
    ground (arith, added_sizes g impl (references_of heap impl))

implementations_loop-IsBuilt :
    (fuel i : ℕ) (heap : Heap) (g : Graph)
    → IsBuilt g
    → length g.nodes + fuel < g.table_size + 1
    → IsBuilt (implementations_loop fuel i heap g)
unfolding implementations_loop
implementations_loop-IsBuilt zero i heap g b room = b
implementations_loop-IsBuilt (suc fuel) i heap g b room =
    let next = add_implementation heap g (node g i).object in
    let sizes = add_implementation_sizes heap g (node g i).object in
    elim (Bool-cases (ltb i (length g.nodes))) [
      | inr past ↦ rw past b
      | inl more ↦ rw more (
          implementations_loop-IsBuilt fuel (suc i) heap next
            (add_implementation-IsBuilt heap g (node g i).object b (omega arith))
            (omega (arith, sizes.1, sizes.2)))
    ]

add_objects_sizes :
    (heap : Heap) (ps : List ℕ) (g : Graph)
    → (length (add_objects heap ps g).nodes ≡ length g.nodes + length ps)
      × ((add_objects heap ps g).table_size ≡ g.table_size)
unfolding add_objects
add_objects_sizes heap [] g = (omega arith, refl)
add_objects_sizes heap (p ∷ ps) g =
    let sizes = added_sizes g p (references_of heap p) in
    let rest = add_objects_sizes heap ps (cycle_add g p (references_of heap p)) in
    (omega arith, rest.1 ∙ sizes.1)

pub build-IsBuilt :
    (count : ℕ) (heap : Heap) (first : List ℕ) (g : Graph)
    → IsBuilt g
    → g.nodes ≡ []
    → AreNew [] first
    → length first ≤ count
    → count * 2 ≤ g.table_size
    → IsBuilt (build count heap first g)
unfolding build
build-IsBuilt count heap first g b empty new few size =
    let none = ap length empty in
    let sizes = add_objects_sizes heap first g in
    implementations_loop-IsBuilt count 0 heap (add_objects heap first g)
      (add_objects-IsBuilt heap first g b (rw empty new) (omega arith)) (omega arith)

some_inj : (g h : Graph) → ◌≡◌ {A = Option Graph} (some g) (some h) → g ≡ h
some_inj g h e = cc

-- The graph that `cycle_init` gives.
pub cycle_init-IsBuilt :
    (count : ℕ) (g : Graph)
    → count < 2 ^ 63
    → cycle_init true count ≡ some g
    → IsBuilt g × (g.nodes ≡ []) × (count * 2 ≤ g.table_size)
cycle_init-IsBuilt count g small run =
    let (g', run', order, empty, waiting, off, size) = cycle_init-IsGraph count small in
    subst (λ h. IsBuilt h × (h.nodes ≡ []) × (count * 2 ≤ h.table_size))
      (some_inj g' g (sym run' ∙ run))
      (
        record { in_order = order; none_live = rw empty refl; waiting = waiting; off = off },
        empty,
        size,
      )

-- What the collection promises: `w` is the graph with counted edges, `r` the marked graph.
pub record Collects (allocation_count : ℕ) (heap : Heap) (first_object : List ℕ) (w r : Graph)
    : Type 0 where
  pub runs : collect_marks false true allocation_count heap first_object ≡ some r
  pub weighed :
      (g : Graph) × (cycle_init true allocation_count ≡ some g)
      × (w ≡ weigh heap (build allocation_count heap first_object g))
  pub nodes : objects r.nodes ≡ objects w.nodes
  pub live : (j : ℕ) → IsLive r j ↔ Reachable (objects w.nodes) (owned_edges heap) (IsRoot w) j

-- The whole analysis, from the list of the isolate's objects, each of them on it once, and at most as
-- many as were allocated: it ends, and an object is live then exactly when a root reaches it by
-- owning pointers, a root being an object whose number of references is not that of its owners in
-- the graph with counted edges and pinned objects.
pub collect_marks-Collects :
    (allocation_count : ℕ) (heap : Heap) (first_object : List ℕ)
    → allocation_count < 2 ^ 63
    → AreNew [] first_object
    → length first_object ≤ allocation_count
    → (w : Graph) × (r : Graph) × Collects allocation_count heap first_object w r
unfolding collect_marks
collect_marks-Collects count heap first small new few =
    let (g, run, order, empty, waiting, off, size) = cycle_init-IsGraph count small in
    let b0 : IsBuilt g = record {
      in_order = order;
      none_live = rw empty refl;
      waiting = waiting;
      off = off;
    } in
    let w = weigh heap (build count heap first g) in
    let b =
      weigh-IsBuilt heap (build count heap first g)
        (build-IsBuilt count heap first g b0 empty new few size) in
    let u = built-IsUnmarked w b in
    (
      w,
      mark_loop (length w.nodes) 0 (owned_edges heap) (cycle_roots w),
      record {
        runs = rw (run, collect_marks) refl;
        weighed = (g, run, refl);
        nodes = mark_loop-objects (owned_edges heap) w u;
        live = mark_loop-Reachable (owned_edges heap) w u;
      },
    )
