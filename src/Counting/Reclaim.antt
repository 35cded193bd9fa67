-- ===== src/Counting/Reclaim.antt =====
-- The end of `Am_Lang_GC_collect_0` of src/native-c/libc/Am/Lang/GC.c: the objects that the analysis
-- did not reach are held, their slots are cleared, and then they are released. The class Array is known by
-- its release function.
use am_lang_core.Base.{
  ℕ, Bool, true, false, List, [], ◌∷◌, ◌==◌, if◌then◌else◌, length, get_or, set,
}
use am_lang_core.Counting.Fields.{put}
use am_lang_core.Counting.{
  Shape, Release, no_release, array_release, data_release, by_property, by_reference, Memory, owns,
  no_value, any_at, clear_at, element_count, for_loop, is_class_type, increase_reference_count,
  decrease,
}

abbrev pub is_array : Release → Bool
is_array array_release = true
is_array no_release = false
is_array data_release = false

-- The three loops over the objects that were not reached: this one holds them.
unfoldable pub pin_all : List ℕ → Memory → Memory
pin_all [] m = m
pin_all (p ∷ ps) m = pin_all ps (increase_reference_count p m)

module _ (shape : ℕ → Shape) (fuel : ℕ) where
  -- `gc_clear_edge` on a property: here the slot is cleared first.
  unfoldable pub clear_property : ℕ → ℕ → Memory → Memory
  clear_property obj i m =
      let v = get_or (m.properties obj) i no_value in
      let cleared = record m {
        properties = put m.properties obj (set (m.properties obj) i (record v { value = 0 }));
      } in
      if owns v then decrease shape fuel by_property v.value cleared else m

  -- The same on an element of an array.
  unfoldable pub clear_element : ℕ → ℕ → Memory → Memory
  clear_element obj i m =
      let v = any_at (m.elements obj) i in
      let cleared = record m { elements = put m.elements obj (clear_at (m.elements obj) i) } in
      if owns v then decrease shape fuel by_property v.value cleared else m

  -- `gc_clear_owned_edges`
  unfoldable pub clear_owned_edges : ℕ → Memory → Memory
  clear_owned_edges obj m =
      let properties_cleared =
        if (shape obj).object_property_count == 0
        then m
        else for_loop (length (m.properties obj)) 0 (clear_property obj) m in
      let elements_cleared =
        if is_array (shape obj).release
        then for_loop (element_count (properties_cleared.elements obj)) 0 (clear_element obj)
            properties_cleared
        else properties_cleared in
      if is_class_type (shape obj).type_of_class then elements_cleared else m

  unfoldable pub clear_all : List ℕ → Memory → Memory
  clear_all [] m = m
  clear_all (p ∷ ps) m = clear_all ps (clear_owned_edges p m)

  unfoldable pub release_all : List ℕ → Memory → Memory
  release_all [] m = m
  release_all (p ∷ ps) m = release_all ps (decrease shape fuel by_reference p m)

  unfoldable pub reclaim : List ℕ → Memory → Memory
  reclaim ps m = release_all ps (clear_all ps (pin_all ps m))
