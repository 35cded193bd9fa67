-- ===== src/Collection/Tests.antt =====
-- A run of a collection, and its theorem at a concrete heap.
use am_lang_core.Base.{ℕ, ◌≡◌, refl, true, false, List, [], ◌∷◌, arith, ◌==◌, if◌then◌else◌, Bool}
use am_lang_core.Values.{NullableValue, is_primitive}
use am_lang_core.Collector.Collect.{class_type}
use am_lang_core.Counting.Chain.{Distinct}
use am_lang_core.Counting.Sound.{plus}
use am_lang_core.Counting.Exact.{IsExact}
use am_lang_core.Collector.{
  Graph, cycle_hash, place, cycle_init, cycle_add, locate, cycle_contains, count_internal, mark,
  cycle_edge, edges_loop, mark_loop, roots_loop, cycle_roots,
}
use am_lang_core.Collector.Collect.{
  owned_values, owned_items, owned_of_class, owned_edges, add_objects, add_implementation,
  implementations_loop, count_loop, pin, pin_loop, build, weigh, collect_marks, unreached,
}
use am_lang_core.Counting.{
  Shape, no_release, primitive_elements, Memory, owns, increase_reference_count, for_loop, unlink,
  free_object, property_round, element_round, release_hook, detach_object, deallocate_object,
  decrease_property_step, decrease_reference_step, decrease,
}
use am_lang_core.Counting.Reclaim.{
  pin_all, clear_property, clear_element, clear_owned_edges, clear_all, release_all, reclaim,
}
use am_lang_core.Collection.{first_objects, object_of, collect}
use am_lang_core.Collection.Analysis.{Decides, collect_marks-Decides}
use am_lang_core.Collection.Chosen.{IsReady}
use am_lang_core.Collection.Kept.{Collected, collect-Collected}

abbrev ring_shape : ℕ → Shape
ring_shape p = record {
  type_of_class = class_type;
  release = no_release;
  object_property_count = 1;
  implementation_object = 0;
  immortal = false;
  chunked = false;
}

abbrev holding : ℕ → List NullableValue
holding p = record { flags = 0; value = p } ∷ []

-- The objects 64 and 128 hold one another, and 192, which has a local reference, holds 256.
abbrev ring_and_owner : Memory
ring_and_owner = record {
  reference_count = λ p. if p == 192 then 1 else 0;
  property_reference_count =
      λ p. if p == 64 then 1 else if p == 128 then 1 else if p == 256 then 1 else 0;
  pending_deallocation = λ p. false;
  next = λ p. if p == 64 then 128 else if p == 128 then 256 else 0;
  prev = λ p. if p == 128 then 64 else if p == 256 then 128 else 0;
  properties = λ p.
      if p == 64
      then holding 128
      else if p == 128
      then holding 64
      else if p == 192
      then holding 256
      else holding 0;
  elements = λ p. primitive_elements;
  first_object = 64;
  allocation_count = 4;
  freed = [];
}

abbrev four : List ℕ
four = 64 ∷ 128 ∷ 192 ∷ 256 ∷ []

four-Distinct : Distinct four
four-Distinct = (refl, (refl, (refl, (refl, tt))))

abbrev no_string : ℕ → Bool
no_string p = false

abbrev nothing : ℕ → ℕ
nothing p = 0

-- The ring goes, the owner and what it holds stay.
collects : (collect ring_shape no_string false true 5 ring_and_owner).freed ≡ 128 ∷ 64 ∷ []
unfolding collect first_objects collect_marks cycle_init build weigh add_objects
    implementations_loop add_implementation cycle_contains cycle_add place cycle_hash locate
    count_loop edges_loop cycle_edge count_internal owned_edges owned_of_class owned_values
    owned_items is_primitive pin pin_loop cycle_roots roots_loop mark_loop mark unreached reclaim
    pin_all clear_all release_all clear_owned_edges clear_property clear_element
    increase_reference_count decrease decrease_property_step decrease_reference_step
    deallocate_object detach_object release_hook property_round element_round for_loop unlink
    free_object owns
collects = refl

ring_and_owner-IsExact : IsExact ring_shape four ring_and_owner (plus nothing 192) nothing
unfolding owns is_primitive
ring_and_owner-IsExact = record {
  list = 64 ∷ 128 ∷ 256 ∷ [];
  sound = record {
    chain = omega arith;
    distinct = (refl, (refl, (refl, tt)));
    listed = λ p. ground arith;
    unlinked = λ p h out. ground arith;
    references = λ p h. ground arith;
    properties = λ p h mortal. ground arith;
    small = λ p h. ground arith;
    dead = λ p h d. ground arith;
    alive = λ p h d. ground arith;
    holds = λ q h d ne. (refl, refl);
    closed = λ q h. ground arith;
  };
  freed_once = λ q h. refl;
}

ring_and_owner-IsReady : IsReady ring_shape four ring_and_owner
ring_and_owner-IsReady = record {
  tidy = λ p array. refl;
  shallow = λ q p wraps. refl;
  room = λ p there. ground arith;
  counted = omega arith;
  small = omega arith;
}

collect-Collected_example :
    Collected ring_shape no_string four four-Distinct refl ring_and_owner
      (plus nothing 192)
      nothing
      (collect ring_shape no_string false true 5 ring_and_owner)
collect-Collected_example =
    collect-Collected ring_shape no_string four four-Distinct refl ring_and_owner (plus nothing 192)
      nothing ring_and_owner-IsExact 5 ring_and_owner-IsReady (omega arith)

collect_marks-Decides_example :
    (os : List ℕ) × (g : Graph) × Decides
      (object_of ring_shape no_string ring_and_owner)
      four
      (64 ∷ 128 ∷ 256 ∷ [])
      4
      os
      g
collect_marks-Decides_example =
    collect_marks-Decides (object_of ring_shape no_string ring_and_owner) four four-Distinct refl
      (λ q h i n x. cc) 4 (64 ∷ 128 ∷ 256 ∷ []) (omega arith) (omega arith)
      (refl, (refl, (refl, tt))) (λ p h. ground arith)
