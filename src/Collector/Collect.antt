-- ===== src/Collector/Collect.antt =====
-- `Am_Lang_GC_collect_0` of src/native-c/libc/Am/Lang/GC.c up to the choice of what to reclaim, and
-- `gc_owned_edges`, over a heap of objects.
pub mod Build
pub mod Weigh
use am_lang_core.Base.{
  ℕ, zero, suc, ◌+◌, Bool, true, false, not, ◌&&◌, ◌||◌, Option, none, some, List, [], ◌∷◌, ltb,
  ◌==◌, if◌then◌else◌, length, get_or, set, ◌++◌,
}
use am_lang_core.Values.{NullableValue, is_primitive}
use am_lang_core.Collector.{
  Node, no_node, Graph, node, cycle_init, cycle_add, cycle_contains, edges_loop, cycle_roots,
  mark_loop,
}

-- `cls->statics->type`: an interface wrapper, an object of a class, or anything else.
pub data ClassType : Type 0 where
  interface_type class_type function_reference : ClassType

-- The elements of an object of the Array class, by the kind of its elements.
pub data ArrayItems : Type 0 where
  no_array primitive_items : ArrayItems
  object_items : List ℕ → ArrayItems
  any_items : List NullableValue → ArrayItems

-- What the collector reads of an object and its class. `native_finalizer` is a `release` function of
-- a class other than Array and String.
pub record HeapObject : Type 0 where
  pub type_of_class : ClassType
  pub implementation_object : ℕ
  pub object_property_count : ℕ
  pub properties : List NullableValue
  pub array : ArrayItems
  pub reference_count : ℕ
  pub property_reference_count : ℕ
  pub immortal : Bool
  pub pending_deallocation : Bool
  pub native_finalizer : Bool

abbrev pub Heap : Type 0
Heap = ℕ → HeapObject

-- The loop over slots that may hold primitives.
unfoldable pub owned_values : List NullableValue → List ℕ
owned_values [] = []
owned_values (v ∷ vs) = if is_primitive v then owned_values vs else v.value ∷ owned_values vs

unfoldable pub owned_items : ArrayItems → List ℕ
unfolding owned_values
owned_items no_array = []
owned_items primitive_items = []
owned_items (object_items ps) = ps
owned_items (any_items vs) = owned_values vs

unfoldable pub owned_of_class : HeapObject → ClassType → List ℕ
unfolding owned_values owned_items
owned_of_class obj interface_type = obj.implementation_object ∷ []
owned_of_class obj function_reference = []
owned_of_class obj class_type =
    (if obj.object_property_count == 0 then [] else owned_values obj.properties)
    ++ owned_items obj.array

-- The pointers that `gc_owned_edges` hands to `cycle_edge`, in order.
unfoldable pub owned_edges : Heap → ℕ → List ℕ
unfolding owned_of_class
owned_edges heap p = owned_of_class (heap p) (heap p).type_of_class

abbrev pub references_of : Heap → ℕ → ℕ
references_of heap p = (heap p).reference_count + (heap p).property_reference_count

-- The loop over `iso->first_object` and what follows it.
unfoldable pub add_objects : Heap → List ℕ → Graph → Graph
add_objects heap [] g = g
add_objects heap (p ∷ ps) g = add_objects heap ps (cycle_add g p (references_of heap p))

abbrev pub is_interface : ClassType → Bool
is_interface interface_type = true
is_interface _ = false

-- One round of the loop that adds the objects behind interface wrappers.
unfoldable pub add_implementation : Heap → Graph → ℕ → Graph
add_implementation heap g p =
    let impl = (heap p).implementation_object in
    if is_interface (heap p).type_of_class
      && not (impl == 0)
      && not (heap impl).immortal
      && not (cycle_contains g impl)
    then cycle_add g impl (references_of heap impl)
    else g

-- `for (i = 0; i < graph.count; i++)`, with the count growing; the number of allocated objects is
-- the fuel.
unfoldable pub implementations_loop : ℕ → ℕ → Heap → Graph → Graph
implementations_loop zero i heap g = g
implementations_loop (suc fuel) i heap g =
    let rest =
      implementations_loop fuel (suc i) heap (add_implementation heap g (node g i).object) in
    if ltb i (length g.nodes) then rest else g

-- The rounds that are left of `for (i = 0; i < count; i++)`.
unfoldable pub count_loop : ℕ → ℕ → Heap → Graph → Graph
count_loop zero i heap g = g
count_loop (suc left) i heap g =
    count_loop left (suc i) heap (edges_loop g (owned_edges heap (node g i).object))

-- An object that the collector must leave alone counts as owned from outside.
unfoldable pub pin : Heap → Graph → ℕ → Graph
pin heap g i =
    let obj = heap (node g i).object in
    if obj.immortal || obj.pending_deallocation || obj.native_finalizer
    then record g {
      nodes = set g.nodes i (record (node g i) { references = (node g i).internal + 1 });
    }
    else g

unfoldable pub pin_loop : ℕ → ℕ → Heap → Graph → Graph
pin_loop zero i heap g = g
pin_loop (suc left) i heap g = pin_loop left (suc i) heap (pin heap g i)

-- The graph after the two loops that add nodes.
unfoldable pub build : ℕ → Heap → List ℕ → Graph → Graph
build allocation_count heap first_object g =
    implementations_loop allocation_count 0 heap (add_objects heap first_object g)

-- The graph with counted edges and pinned objects.
unfoldable pub weigh : Heap → Graph → Graph
weigh heap g =
    let counted = count_loop (length g.nodes) 0 heap g in pin_loop (length g.nodes) 0 heap counted

-- The marked graph. `none` where detached objects wait to be freed, or the workspace could not be
-- allocated: nothing is reclaimed then.
unfoldable pub collect_marks : (detached memory : Bool) → ℕ → Heap → List ℕ → Option Graph
collect_marks true memory allocation_count heap first_object = none
collect_marks false memory allocation_count heap first_object =
    elim (cycle_init memory allocation_count) [
      | none ↦ none
      | some g ↦
          let weighed = weigh heap (build allocation_count heap first_object g) in
          some (mark_loop (length weighed.nodes) 0 (owned_edges heap) (cycle_roots weighed))
    ]

-- The objects that are then reclaimed.
unfoldable pub unreached : List Node → List ℕ
unreached [] = []
unreached (n ∷ ns) = if n.live then unreached ns else n.object ∷ unreached ns
