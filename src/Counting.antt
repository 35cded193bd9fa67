-- ===== src/Counting.antt =====
-- Reference counting: src/native-c/libc/core_inline_functions.h, `__decrease_property_reference_count`,
-- `__detach_object` and `__deallocate_object` of src/native-c/libc/core.c, and
-- `Am_Lang_Array__native_release_0` of Am/Lang/Array.c.
-- A field is a function of the object's address, the null pointer is 0, and addresses are below
-- 2 ^ 63, so that the tripwires on suspicious pointers stay quiet. Counts are `int` bit patterns.
-- A release function other than that of arrays frees native data only, and throws nothing.
pub mod Fields
pub mod Chain
pub mod Ledger
pub mod Sound
pub mod Moves
pub mod Frame
pub mod Slots
pub mod Loops
pub mod Detach
pub mod Bury
pub mod Decrease
pub mod Exact
pub mod Edges
pub mod Acquire
pub mod Assign
pub mod Reclaim
pub mod Clear
pub mod Cleared
pub mod Reclaimed
mod Tests
use am_lang_core.Base.{
  ℕ, zero, suc, ◌+◌, ◌-◌, ◌%◌, ◌^◌, Bool, true, false, not, ◌&&◌, List, [], ◌∷◌, ◌==◌, ltb,
  if◌then◌else◌, length, get_or, set,
}
use am_lang_core.Values.{NullableValue, is_primitive}
use am_lang_core.Collector.Collect.{ClassType, interface_type, class_type, function_reference}
use am_lang_core.Counting.Fields.{put, put_if}

-- The `release` function of a class.
pub data Release : Type 0 where
  no_release array_release data_release : Release

-- What stays as it is while an object lives: its class, what it wraps, and how it was allocated.
pub record Shape : Type 0 where
  pub type_of_class : ClassType
  pub release : Release
  pub object_property_count : ℕ
  pub implementation_object : ℕ
  pub immortal : Bool
  pub chunked : Bool

-- The elements of an array, by their kind.
pub data Elements : Type 0 where
  primitive_elements : Elements
  object_elements : List ℕ → Elements
  any_elements : List NullableValue → Elements

-- The fields of all objects and of their isolate. `freed` lists what was given back, newest first.
pub record Memory : Type 0 where
  pub reference_count : ℕ → ℕ
  pub property_reference_count : ℕ → ℕ
  pub pending_deallocation : ℕ → Bool
  pub next : ℕ → ℕ
  pub prev : ℕ → ℕ
  pub properties : ℕ → List NullableValue
  pub elements : ℕ → Elements
  pub first_object : ℕ
  pub allocation_count : ℕ
  pub freed : List ℕ

-- `count--` and `count++` on an `int`.
abbrev pub down : ℕ → ℕ
down n = (n + 2 ^ 32 - 1) % 2 ^ 32

abbrev pub up : ℕ → ℕ
up n = (n + 1) % 2 ^ 32

abbrev pub no_value : NullableValue
no_value = record { flags = 0; value = 0 }

-- `!__is_primitive(v) && v.value.object_value != NULL`
unfoldable pub owns : NullableValue → Bool
unfolding is_primitive
owns v = not (is_primitive v) && not (v.value == 0)

abbrev pub is_interface_type : ClassType → Bool
is_interface_type interface_type = true
is_interface_type class_type = false
is_interface_type function_reference = false

abbrev pub is_class_type : ClassType → Bool
is_class_type class_type = true
is_class_type interface_type = false
is_class_type function_reference = false

abbrev pub has_no_release : Release → Bool
has_no_release no_release = true
has_no_release array_release = false
has_no_release data_release = false

-- `for (i = 0; i < n; i++) body`: the rounds that are left, and `i`.
unfoldable pub for_loop {ℓ} : {S : Type ℓ} → ℕ → ℕ → (ℕ → S → S) → S → S
for_loop zero i body s = s
for_loop (suc left) i body s = for_loop left (suc i) body (body i s)

-- Which of the two counts a holder of an object is counted in.
pub data Holder : Type 0 where
  by_reference by_property : Holder

-- `__increase_reference_count`
unfoldable pub increase_reference_count : ℕ → Memory → Memory
increase_reference_count p m = record m {
  reference_count = put m.reference_count p (up (m.reference_count p));
}

-- The object at the front of the property-referenced list.
pub link_first : ℕ → Memory → Memory
link_first p m = record m {
  next = put m.next p m.first_object;
  prev = put_if m.prev m.first_object p;
  first_object = p;
}

-- Out of the property-referenced list.
unfoldable pub unlink : ℕ → Memory → Memory
unlink p m =
    if p == m.first_object
    then record m {
      first_object = m.next p;
      next = put m.next p 0;
      prev = put_if m.prev (m.next p) 0;
    }
    else record m {
      next = put (put m.next (m.prev p) (m.next p)) p 0;
      prev = put (put_if m.prev (m.next p) (m.prev p)) p 0;
    }

-- `__amlc_free_object_in`, with the allocation count that its callers lower first.
unfoldable pub free_object : ℕ → Memory → Memory
free_object p m = record m { allocation_count = down m.allocation_count; freed = p ∷ m.freed }

abbrev pub any_at : Elements → ℕ → NullableValue
any_at (any_elements vs) i = get_or vs i no_value
any_at (object_elements ps) i = record { flags = 0; value = get_or ps i 0 }
any_at primitive_elements i = no_value

abbrev pub clear_at : Elements → ℕ → Elements
clear_at (any_elements vs) i = any_elements (set vs i no_value)
clear_at (object_elements ps) i = object_elements (set ps i 0)
clear_at primitive_elements i = primitive_elements

abbrev pub element_count : Elements → ℕ
element_count (any_elements vs) = length vs
element_count (object_elements ps) = length ps
element_count primitive_elements = 0

module _ (shape : ℕ → Shape) where
  -- A plain class with no release function and no slot for objects has nothing to detach.
  abbrev pub is_plain : ℕ → Bool
  is_plain p =
      has_no_release (shape p).release
      && ((shape p).object_property_count == 0)
      && is_class_type (shape p).type_of_class

  unfoldable pub increase_property_reference_count : ℕ → Memory → Memory
  unfolding link_first
  increase_property_reference_count p m =
      if (shape p).immortal
      then m
      else let linked = if m.property_reference_count p == 0 then link_first p m else m in
        record linked {
          property_reference_count =
              put linked.property_reference_count p (up (linked.property_reference_count p));
        }

  -- The functions that give up an object, over the function that gives up one holder.
  module _ (decrease : Holder → ℕ → Memory → Memory) where
    -- One round of the loop over the properties of a detached object.
    unfoldable pub property_round : ℕ → ℕ → Memory → Memory
    property_round q i m =
        let v = get_or (m.properties q) i no_value in
        let released = decrease by_property v.value m in
        if owns v
        then record released {
          properties =
              put released.properties q (set (released.properties q) i (record v { value = 0 }));
        }
        else m

    -- One round over the elements of an array. An element of any type is reset also where it held
    -- nothing, which makes no difference for an object.
    unfoldable pub element_round : ℕ → ℕ → Memory → Memory
    element_round q i m =
        let v = any_at (m.elements q) i in
        let released = if owns v then decrease by_property v.value m else m in
        record released { elements = put released.elements q (clear_at (released.elements q) i) }

    unfoldable pub release_hook : Release → ℕ → Memory → Memory
    release_hook no_release q m = m
    release_hook data_release q m = m
    release_hook array_release q m = for_loop (element_count (m.elements q)) 0 (element_round q) m

    unfoldable pub detach_object : ℕ → Memory → Memory
    detach_object q m =
        let started = record m { pending_deallocation = put m.pending_deallocation q true } in
        let released = release_hook (shape q).release q started in
        let unwrapped =
          if is_interface_type (shape q).type_of_class
          then decrease by_reference (shape q).implementation_object released
          else released in
        let cleared = for_loop (length (unwrapped.properties q)) 0 (property_round q) unwrapped in
        if m.pending_deallocation q
        then m
        else if is_class_type (shape q).type_of_class && ltb 0 (shape q).object_property_count
        then record cleared { properties = put cleared.properties q [] }
        else unwrapped

    unfoldable pub deallocate_object : ℕ → Memory → Memory
    deallocate_object p m =
        if m.pending_deallocation p
        then m
        else if is_plain p
        then free_object p (record m { pending_deallocation = put m.pending_deallocation p true })
        else free_object p (detach_object p m)

    unfoldable pub decrease_property_step : ℕ → Memory → Memory
    decrease_property_step p m =
        let lowered = record m {
          property_reference_count =
              put m.property_reference_count p (down (m.property_reference_count p));
        } in
        let unlinked = unlink p lowered in
        if p == 0
        then m
        else if (shape p).immortal
        then m
        else if (lowered.property_reference_count p == 0) && not (m.pending_deallocation p)
        then if unlinked.reference_count p == 0 then deallocate_object p unlinked else unlinked
        else lowered

    unfoldable pub decrease_reference_step : ℕ → Memory → Memory
    decrease_reference_step p m =
        let lowered = record m {
          reference_count = put m.reference_count p (down (m.reference_count p));
        } in
        if p == 0
        then m
        else if (lowered.reference_count p == 0) && (lowered.property_reference_count p == 0)
        then if (shape p).chunked && not (m.pending_deallocation p) && is_plain p
          then free_object p lowered
          else deallocate_object p lowered
        else lowered

  -- `__decrease_reference_count` and `__decrease_property_reference_count`. Each nested call that
  -- goes further detaches another object; with more fuel than objects it never runs out.
  unfoldable pub decrease : ℕ → Holder → ℕ → Memory → Memory
  decrease zero holder p m = m
  decrease (suc fuel) by_property p m = decrease_property_step (decrease fuel) p m
  decrease (suc fuel) by_reference p m = decrease_reference_step (decrease fuel) p m

  -- `__set_property`: the old value is given up, the new one is taken, and then the slot is written.
  unfoldable pub set_property : ℕ → ℕ → ℕ → NullableValue → Memory → Memory
  set_property fuel obj index v m =
      let old = get_or (m.properties obj) index no_value in
      let released = if owns old then decrease fuel by_property old.value m else m in
      let taken = if owns v then increase_property_reference_count v.value released else released in
      record taken { properties = put taken.properties obj (set (taken.properties obj) index v) }
