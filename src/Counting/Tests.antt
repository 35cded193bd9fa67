-- ===== src/Counting/Tests.antt =====
-- Runs of the reference counting, and its theorems at a concrete heap.
use am_lang_core.Base.{ℕ, ◌≡◌, refl, false, List, [], ◌∷◌, arith, ◌==◌, if◌then◌else◌}
use am_lang_core.Values.{NullableValue, is_primitive}
use am_lang_core.Collector.Collect.{class_type}
use am_lang_core.Counting.Chain.{Distinct}
use am_lang_core.Counting.Sound.{plus}
use am_lang_core.Counting.Exact.{IsExact, Settles, decrease-IsExact}
use am_lang_core.Counting.Assign.{Written, set_property-Written}
use am_lang_core.Counting.Reclaim.{reclaim}
use am_lang_core.Counting.Reclaimed.{IsGarbage, Reclaims, reclaim-Reclaims}
use am_lang_core.Counting.{
  Shape, no_release, primitive_elements, Memory, no_value, by_reference, decrease, set_property,
  owns, decrease_property_step, decrease_reference_step, deallocate_object, detach_object,
  release_hook, property_round, for_loop, unlink, free_object,
}

abbrev plain_shape : ℕ → Shape
plain_shape p = record {
  type_of_class = class_type;
  release = no_release;
  object_property_count = 1;
  implementation_object = 0;
  immortal = false;
  chunked = false;
}

abbrev to_object : ℕ → NullableValue
to_object p = record { flags = 0; value = p }

-- The object 64 has one local reference and holds the object 128.
abbrev pair : Memory
pair = record {
  reference_count = λ p. if p == 64 then 1 else 0;
  property_reference_count = λ p. if p == 128 then 1 else 0;
  pending_deallocation = λ p. false;
  next = λ p. 0;
  prev = λ p. 0;
  properties = λ p. if p == 64 then to_object 128 ∷ [] else if p == 128 then no_value ∷ [] else [];
  elements = λ p. primitive_elements;
  first_object = 128;
  allocation_count = 2;
  freed = [];
}

abbrev both : List ℕ
both = 64 ∷ 128 ∷ []

both-Distinct : Distinct both
both-Distinct = (refl, (refl, tt))

abbrev nobody : ℕ → ℕ
nobody p = 0

-- Releasing the one frees the other first.
release_both : (decrease plain_shape 3 by_reference 64 pair).freed ≡ 64 ∷ 128 ∷ []
unfolding decrease decrease_property_step decrease_reference_step deallocate_object detach_object
    release_hook property_round for_loop unlink free_object owns is_primitive
release_both = refl

pair-IsExact : IsExact plain_shape both pair (plus nobody 64) nobody
unfolding owns is_primitive
pair-IsExact = record {
  list = 128 ∷ [];
  sound = record {
    chain = omega arith;
    distinct = (refl, tt);
    listed = λ p. ground arith;
    unlinked = λ p h out. refl;
    references = λ p h. ground arith;
    properties = λ p h mortal. ground arith;
    small = λ p h. ground arith;
    dead = λ p h d. ground arith;
    alive = λ p h d. ground arith;
    holds = λ q h d ne. (refl, refl);
    closed = λ q h. ground arith;
  };
  freed_once = λ q h. refl;
}

decrease-IsExact_example :
    Settles plain_shape both pair nobody nobody (decrease plain_shape 3 by_reference 64 pair)
decrease-IsExact_example =
    decrease-IsExact plain_shape by_reference both 3 64 pair nobody nobody both-Distinct refl refl
      (omega arith) pair-IsExact

set_property-Written_example :
    Written plain_shape both both-Distinct refl
      (plus nobody 64)
      nobody
      64
      refl
      (omega arith)
      pair
      0
      (to_object 64)
      (set_property plain_shape 3 64 0 (to_object 64) pair)
unfolding owns is_primitive
set_property-Written_example =
    set_property-Written plain_shape both both-Distinct refl (plus nobody 64) nobody 64 refl
      (omega arith) pair 0 3 (to_object 64) pair-IsExact refl (omega arith) (omega arith)
      (λ e. ground arith)

-- Two objects that hold one another.
abbrev ring : Memory
ring = record {
  reference_count = λ p. 0;
  property_reference_count = λ p. if p == 64 then 1 else if p == 128 then 1 else 0;
  pending_deallocation = λ p. false;
  next = λ p. if p == 64 then 128 else 0;
  prev = λ p. if p == 128 then 64 else 0;
  properties =
      λ p. if p == 64 then to_object 128 ∷ [] else if p == 128 then to_object 64 ∷ [] else [];
  elements = λ p. primitive_elements;
  first_object = 64;
  allocation_count = 2;
  freed = [];
}

ring-IsExact : IsExact plain_shape both ring nobody nobody
unfolding owns is_primitive
ring-IsExact = record {
  list = both;
  sound = record {
    chain = omega arith;
    distinct = both-Distinct;
    listed = λ p. ground arith;
    unlinked = λ p h out. ground arith;
    references = λ p h. ground arith;
    properties = λ p h mortal. ground arith;
    small = λ p h. ground arith;
    dead = λ p h d. ground arith;
    alive = λ p h d. ground arith;
    holds = λ q h d ne. (refl, refl);
    closed = λ q h. ground arith;
  };
  freed_once = λ q h. refl;
}

ring-IsGarbage : IsGarbage plain_shape both both-Distinct refl both ring nobody nobody
unfolding owns is_primitive
ring-IsGarbage = record {
  once = both-Distinct;
  each = λ p h. (h, refl, omega arith);
  unheld = λ p h. (refl, refl, refl);
  tidy = λ p h array. refl;
  closed = λ q p h there hp holds. h;
  shallow = λ q p wraps. refl;
}

reclaim-Reclaims_example :
    Reclaims plain_shape both both-Distinct refl both ring nobody nobody
      (reclaim plain_shape 3 both ring)
reclaim-Reclaims_example =
    reclaim-Reclaims plain_shape both both-Distinct refl both ring nobody nobody 3 ring-IsGarbage
      ring-IsExact (omega arith)
