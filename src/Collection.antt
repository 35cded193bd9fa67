-- ===== src/Collection.antt =====
-- A whole collection, `Am_Lang_GC_collect_0` of src/native-c/libc/Am/Lang/GC.c: the analysis of Collector
-- over the objects of Counting, and the reclaiming of what it did not reach. `is_string` says which
-- classes are Am.Lang.String.
pub mod Lists
pub mod Owners
pub mod Nodes
pub mod Held
pub mod Chosen
pub mod Unreached
pub mod Analysis
pub mod Kept
mod Tests
use am_lang_core.Base.{
  ℕ, zero, suc, Bool, true, false, not, ◌&&◌, Option, none, some, List, [], ◌∷◌, ◌==◌,
  if◌then◌else◌,
}
use am_lang_core.Collector.Collect.{
  ArrayItems, no_array, primitive_items, object_items, any_items, HeapObject, Heap, collect_marks,
  unreached,
}
use am_lang_core.Counting.{
  Shape, Release, no_release, array_release, data_release, Elements, primitive_elements,
  object_elements, any_elements, Memory,
}
use am_lang_core.Counting.Reclaim.{reclaim}

abbrev pub array_items : Release → Elements → ArrayItems
array_items no_release es = no_array
array_items data_release es = no_array
array_items array_release primitive_elements = primitive_items
array_items array_release (object_elements ps) = object_items ps
array_items array_release (any_elements vs) = any_items vs

abbrev pub is_data : Release → Bool
is_data no_release = false
is_data array_release = false
is_data data_release = true

-- `for (obj = iso->first_object; obj; obj = obj->next)`: the objects that it comes to.
unfoldable pub first_objects : ℕ → (ℕ → ℕ) → ℕ → List ℕ
first_objects zero next p = []
first_objects (suc fuel) next p = if p == 0 then [] else p ∷ first_objects fuel next (next p)

module _ (shape : ℕ → Shape) (is_string : ℕ → Bool) where
  -- What the analysis reads of an object.
  abbrev pub object_of : Memory → Heap
  object_of m p = record {
    type_of_class = (shape p).type_of_class;
    implementation_object = (shape p).implementation_object;
    object_property_count = (shape p).object_property_count;
    properties = m.properties p;
    array = array_items (shape p).release (m.elements p);
    reference_count = m.reference_count p;
    property_reference_count = m.property_reference_count p;
    immortal = (shape p).immortal;
    pending_deallocation = m.pending_deallocation p;
    native_finalizer = is_data (shape p).release && not (is_string p);
  }

  -- `detached`: objects wait to be freed; `memory`: the workspace could be allocated.
  unfoldable pub collect : (detached memory : Bool) → ℕ → Memory → Memory
  collect detached memory fuel m =
      elim (collect_marks detached memory m.allocation_count (object_of m)
        (first_objects fuel m.next m.first_object)) [
          | none ↦ m
          | some g ↦ reclaim shape fuel (unreached g.nodes) m
        ]
