-- ===== src/Collector/Tests.antt =====
-- Runs of the cycle collector, and its theorems at concrete inputs.
use am_lang_core.Base.{
  ℕ, ◌≡◌, refl, true, false, some, none, Option, List, [], ◌∷◌, ◌==◌, if◌then◌else◌,
}
use am_lang_core.Values.{is_primitive}
use am_lang_core.Collector.{
  Graph, cycle_hash, place, cycle_init, cycle_add, locate, cycle_contains, count_internal, mark,
  cycle_edge, edges_loop, mark_loop, roots_loop, cycle_roots,
}
use am_lang_core.Collector.Collect.{
  class_type, no_array, HeapObject, Heap, owned_edges, add_objects, add_implementation,
  implementations_loop, count_loop, pin, pin_loop, build, weigh, collect_marks, unreached,
}

abbrev owner_of : ℕ → ℕ → ℕ → HeapObject
owner_of target local held = record {
  type_of_class = class_type;
  implementation_object = 0;
  object_property_count = 1;
  properties = record { flags = 0; value = target } ∷ [];
  array = no_array;
  reference_count = local;
  property_reference_count = held;
  immortal = false;
  pending_deallocation = false;
  native_finalizer = false;
}

-- Objects 64 and 128 own one another and nobody else owns them; 192 has a local reference and owns 256.
abbrev sample : Heap
sample p =
    if p == 64
    then owner_of 128 0 1
    else if p == 128
    then owner_of 64 0 1
    else if p == 192
    then owner_of 256 1 0
    else owner_of 0 0 1

abbrev all_objects : List ℕ
all_objects = 64 ∷ 128 ∷ 192 ∷ 256 ∷ []

abbrev reclaimed : Option Graph → List ℕ
reclaimed none = []
reclaimed (some g) = unreached g.nodes

-- The cycle goes, the rest stays.
reclaims : reclaimed (collect_marks false true 4 sample all_objects) ≡ 64 ∷ 128 ∷ []
unfolding collect_marks cycle_init build weigh add_objects implementations_loop add_implementation
    cycle_contains cycle_add place cycle_hash locate count_loop edges_loop cycle_edge count_internal
    owned_edges is_primitive pin pin_loop cycle_roots roots_loop mark_loop mark unreached
reclaims = refl
