-- ===== src/Counting/Cleared.antt =====
-- The loops of `gc_clear_owned_edges`, src/native-c/libc/Am/Lang/GC.c: afterwards the object holds nothing
-- in its slots.
use am_lang_core.Base.{
  ℕ, zero, suc, ◌+◌, ◌<◌, ◌≡◌, ◌≢◌, refl, ◌∙◌, Bool, true, false, not, List, [], ◌∷◌, ◌++◌, arith,
  length, get_or, set, length-set, ◌==◌, if◌then◌else◌, Bool-cases, inl, inr,
}
use am_lang_core.Values.{NullableValue}
use am_lang_core.Counting.Fields.{put, put_at}
use am_lang_core.Counting.Chain.{has, Distinct}
use am_lang_core.Counting.Ledger.{count, living, living_le}
use am_lang_core.Counting.Sound.{
  gone, held_values, held_pointers, held_elements, held_by_release, has_slots, slots_of,
}
use am_lang_core.Counting.Exact.{IsExact}
use am_lang_core.Counting.Edges.{count-append, count-set}
use am_lang_core.Counting.Clear.{Effect, Clean, cleared_owned, get_or-set, round_Effect}
use am_lang_core.Counting.{
  Shape, Release, no_release, array_release, data_release, Memory, Elements, primitive_elements,
  object_elements, any_elements, owns, no_value, for_loop, any_at, clear_at, element_count,
  is_class_type,
}
use am_lang_core.Counting.Reclaim.{clear_property, clear_element, clear_owned_edges, is_array}

values-Clean :
    (vs : List NullableValue) → Clean (length vs) (λ j. get_or vs j no_value) → held_values vs ≡ []
values-Clean [] clean = refl
values-Clean (v ∷ vs) clean =
    let rest = values-Clean vs (λ j lt. clean (suc j) (omega arith)) in
    rw (clean 0 (omega arith)) rest

pointer_owned : (p : ℕ) → owns (record { flags = 0; value = p }) ≡ not (p == 0)
unfolding owns
pointer_owned p = refl

elements-Clean : (es : Elements) → Clean (element_count es) (any_at es) → held_elements es ≡ []
elements-Clean primitive_elements clean = refl
elements-Clean (any_elements vs) clean = values-Clean vs clean
elements-Clean (object_elements []) clean = refl
elements-Clean (object_elements (p ∷ ps)) clean =
    let rest = elements-Clean (object_elements ps) (λ j lt. clean (suc j) (omega arith)) in
    let here = clean 0 (omega arith) in ground (arith, pointer_owned p)

count-set_pointer :
    (x i : ℕ) (ps : List ℕ)
    → i < length ps
    → get_or ps i 0 ≢ 0
    → count x (held_pointers (set ps i 0)) + (if x == get_or ps i 0 then 1 else 0)
      ≡ count x (held_pointers ps)
count-set_pointer x i [] h ne = absurd (omega arith)
count-set_pointer x zero (p ∷ ps) h ne = ground arith
count-set_pointer x (suc i) (p ∷ ps) h ne = ground (arith, count-set_pointer x i ps)

count-clear :
    (x i : ℕ) (es : Elements)
    → i < element_count es
    → owns (any_at es i) ≡ true
    → count x (held_elements (clear_at es i)) + (if x == (any_at es i).value then 1 else 0)
      ≡ count x (held_elements es)
count-clear x i primitive_elements h holds = absurd (omega arith)
count-clear x i (object_elements ps) h holds =
    count-set_pointer x i ps h (ground (arith, pointer_owned (get_or ps i 0)))
count-clear x i (any_elements vs) h holds =
    ground (arith, count-set x i no_value vs h, cleared_owned no_value)

any_at-clear :
    (es : Elements) (i j : ℕ)
    → i < element_count es
    → any_at (clear_at es i) j ≡ (if j == i then no_value else any_at es j)
any_at-clear primitive_elements i j h = absurd (omega arith)
any_at-clear (object_elements ps) i j h = ground (arith, get_or-set ps i j 0 0 h)
any_at-clear (any_elements vs) i j h = get_or-set vs i j no_value no_value h

element_count-clear : (es : Elements) (i : ℕ) → element_count (clear_at es i) ≡ element_count es
element_count-clear primitive_elements i = refl
element_count-clear (object_elements ps) i = length-set ps i 0
element_count-clear (any_elements vs) i = length-set vs i no_value

nothing_owned : owns no_value ≡ false
unfolding owns
nothing_owned = refl

pub left_before : (b c : Bool) → (b ≡ true → c ≡ true) → c ≡ false → b ≡ false
left_before false c stays e = refl
left_before true c stays e = cc (stays refl)

slots_of_other :
    (release : Release) (es : Elements)
    → (is_array release ≡ true → ⊥)
    → held_by_release release es ++ [] ≡ []
slots_of_other no_release es none = refl
slots_of_other data_release es none = refl
slots_of_other array_release es none = absurd (none refl)

module _ (shape : ℕ → Shape) (objects : List ℕ) (apart : Distinct objects)
    (no_null : has 0 objects ≡ false) (fuel : ℕ) (r o : ℕ → ℕ) (obj : ℕ)
    (h : has obj objects ≡ true) (held : 0 < r obj) where
  Effect-refl : (m : Memory) → IsExact shape objects m r o → Effect shape objects obj m r o m
  Effect-refl m e = record {
    exact = e;
    stays = λ q d. d;
    spared = λ q hq d ne. (refl, refl);
    allocated = refl;
  }

  clear_property_lem :
      (i : ℕ) (m : Memory)
      → IsExact shape objects m r o
      → living (gone m) objects < fuel
      → has_slots shape obj ≡ true
      → i < length (m.properties obj)
      → Clean i (λ j. get_or (m.properties obj) j no_value)
      → Effect shape objects obj m r o (clear_property shape fuel obj i m)
        × Clean
            (suc i)
            (λ j. get_or ((clear_property shape fuel obj i m).properties obj) j no_value)
        × (length ((clear_property shape fuel obj i m).properties obj) ≡ length (m.properties obj))
        × ((clear_property shape fuel obj i m).elements obj ≡ m.elements obj)
  unfolding clear_property
  clear_property_lem i m e few slotted inside clean =
      let v = get_or (m.properties obj) i no_value in
      let nulled = record v { value = 0 } in
      let vs = set (m.properties obj) i nulled in
      let front = held_by_release (shape obj).release (m.elements obj) in
      elim (Bool-cases (owns v)) [
        | inl holds ↦
            let (f, props, elems) =
              round_Effect shape objects apart no_null fuel r o obj h held m
                (put m.properties obj vs) m.elements v.value e few (λ q ne. (ground arith, refl))
                (λ x.
                  rw (slotted, put_at m.properties obj vs)
                    (ground (
                      arith,
                      holds,
                      cleared_owned v,
                      count-append x front (held_values vs),
                      count-append x front (held_values (m.properties obj)),
                      count-set x i nulled (m.properties obj) inside,
                    ))) in
            let now = props ∙ put_at m.properties obj vs in
            rw holds (
              f,
              (λ j lt.
                  rw (now, get_or-set (m.properties obj) i j nulled no_value inside)
                    (ground (arith, cleared_owned v, clean j))),
              rw now (length-set (m.properties obj) i nulled),
              elems,
            )
        | inr free ↦ rw free (Effect-refl m e, (λ j lt. ground (arith, clean j)), refl, refl)
      ]

  clear_element_lem :
      (i : ℕ) (m : Memory)
      → IsExact shape objects m r o
      → living (gone m) objects < fuel
      → (shape obj).release ≡ array_release
      → i < element_count (m.elements obj)
      → Clean i (any_at (m.elements obj))
      → Effect shape objects obj m r o (clear_element shape fuel obj i m)
        × Clean (suc i) (any_at ((clear_element shape fuel obj i m).elements obj))
        × (element_count ((clear_element shape fuel obj i m).elements obj)
            ≡ element_count (m.elements obj))
        × ((clear_element shape fuel obj i m).properties obj ≡ m.properties obj)
  unfolding clear_element
  clear_element_lem i m e few array inside clean =
      let v = any_at (m.elements obj) i in
      let es = clear_at (m.elements obj) i in
      let back = if has_slots shape obj then held_values (m.properties obj) else [] in
      elim (Bool-cases (owns v)) [
        | inl holds ↦
            let (f, props, elems) =
              round_Effect shape objects apart no_null fuel r o obj h held m m.properties
                (put m.elements obj es) v.value e few (λ q ne. (refl, ground arith))
                (λ x.
                  rw (array, put_at m.elements obj es)
                    (omega (
                      arith,
                      count-append x (held_elements es) back,
                      count-append x (held_elements (m.elements obj)) back,
                      count-clear x i (m.elements obj) inside holds,
                    ))) in
            let now = elems ∙ put_at m.elements obj es in
            rw holds (
              f,
              (λ j lt.
                  rw (now, any_at-clear (m.elements obj) i j inside)
                    (ground (arith, nothing_owned, clean j))),
              rw now (element_count-clear (m.elements obj) i),
              props,
            )
        | inr free ↦ rw free (Effect-refl m e, (λ j lt. ground (arith, clean j)), refl, refl)
      ]

  module _ (m : Memory) where
    pub Effect-then :
        (x : ℕ) (m' m'' : Memory)
        → Effect shape objects x m r o m'
        → Effect shape objects x m' r o m''
        → Effect shape objects x m r o m''
    Effect-then x m' m'' f g = record {
      exact = g.exact;
      stays = λ q d. g.stays q (f.stays q d);
      spared = λ q hq d ne.
          let a = f.spared q hq (left_before (gone m' q) (gone m'' q) (g.stays q) d) ne in
          let b = g.spared q hq d ne in (b.0 ∙ a.0, b.1 ∙ a.1);
      allocated = g.allocated ∙ f.allocated;
    }

    pub few_after :
        (x : ℕ) (m' : Memory)
        → Effect shape objects x m r o m'
        → living (gone m) objects < fuel
        → living (gone m') objects < fuel
    few_after x m' f few = omega (arith, living_le (gone m) (gone m') objects f.stays)

  clear_properties_loop :
      (left i : ℕ) (m : Memory)
      → IsExact shape objects m r o
      → living (gone m) objects < fuel
      → has_slots shape obj ≡ true
      → i + left ≡ length (m.properties obj)
      → Clean i (λ j. get_or (m.properties obj) j no_value)
      → Effect shape objects obj m r o (for_loop left i (clear_property shape fuel obj) m)
        × (held_values ((for_loop left i (clear_property shape fuel obj) m).properties obj) ≡ [])
        × ((for_loop left i (clear_property shape fuel obj) m).elements obj ≡ m.elements obj)
  unfolding for_loop
  clear_properties_loop zero i m e few slotted size clean =
      (Effect-refl m e, values-Clean (m.properties obj) (λ j lt. clean j (omega arith)), refl)
  clear_properties_loop (suc left) i m e few slotted size clean =
      let (f, clean', len, elems) = clear_property_lem i m e few slotted (omega arith) clean in
      let m' = clear_property shape fuel obj i m in
      let (g, none_left, elems') =
        clear_properties_loop left (suc i) m' f.exact (few_after m obj m' f few) slotted
          (omega (arith, len)) clean' in
      (Effect-then m obj m' _ f g, none_left, elems' ∙ elems)

  clear_elements_loop :
      (left i : ℕ) (m : Memory)
      → IsExact shape objects m r o
      → living (gone m) objects < fuel
      → (shape obj).release ≡ array_release
      → i + left ≡ element_count (m.elements obj)
      → Clean i (any_at (m.elements obj))
      → Effect shape objects obj m r o (for_loop left i (clear_element shape fuel obj) m)
        × (held_elements ((for_loop left i (clear_element shape fuel obj) m).elements obj) ≡ [])
        × ((for_loop left i (clear_element shape fuel obj) m).properties obj ≡ m.properties obj)
  unfolding for_loop
  clear_elements_loop zero i m e few array size clean =
      (Effect-refl m e, elements-Clean (m.elements obj) (λ j lt. clean j (omega arith)), refl)
  clear_elements_loop (suc left) i m e few array size clean =
      let (f, clean', len, props) = clear_element_lem i m e few array (omega arith) clean in
      let m' = clear_element shape fuel obj i m in
      let (g, none_left, props') =
        clear_elements_loop left (suc i) m' f.exact (few_after m obj m' f few) array
          (omega (arith, len)) clean' in
      (Effect-then m obj m' _ f g, none_left, props' ∙ props)

  -- The property and element loops of one object.
  pub properties_part :
      (m : Memory)
      → IsExact shape objects m r o
      → living (gone m) objects < fuel
      → is_class_type (shape obj).type_of_class ≡ true
      → Effect shape objects obj m r o (
          if (shape obj).object_property_count == 0
          then m
          else for_loop (length (m.properties obj)) 0 (clear_property shape fuel obj) m)
        × ((if has_slots shape obj
              then held_values (
                  (if (shape obj).object_property_count == 0
                      then m
                      else for_loop
                          (length (m.properties obj))
                          0
                          (clear_property shape fuel obj)
                          m).properties
                    obj)
              else [])
            ≡ [])
  properties_part m e few class = elim (Bool-cases ((shape obj).object_property_count == 0)) [
    | inl none ↦ rw none (Effect-refl m e, ground arith)
    | inr some ↦
        let slotted : has_slots shape obj ≡ true = ground arith in
        let (f, none_left, _) =
          clear_properties_loop (length (m.properties obj)) 0 m e few slotted (omega arith)
            (λ j lt. absurd (omega arith)) in
        rw (some, slotted) (f, none_left)
  ]

  elements_of_release :
      (release : Release) (m : Memory)
      → (shape obj).release ≡ release
      → IsExact shape objects m r o
      → living (gone m) objects < fuel
      → Effect shape objects obj m r o (
          if is_array release
          then for_loop (element_count (m.elements obj)) 0 (clear_element shape fuel obj) m
          else m)
        × (held_by_release release (
              (if is_array release
                  then for_loop (element_count (m.elements obj)) 0 (clear_element shape fuel obj) m
                  else m).elements
                obj)
            ≡ [])
        × ((if is_array release
                then for_loop (element_count (m.elements obj)) 0 (clear_element shape fuel obj) m
                else m).properties
              obj
            ≡ m.properties obj)
  elements_of_release no_release m is e few = (Effect-refl m e, refl, refl)
  elements_of_release data_release m is e few = (Effect-refl m e, refl, refl)
  elements_of_release array_release m is e few =
      clear_elements_loop (element_count (m.elements obj)) 0 m e few is (omega arith)
        (λ j lt. absurd (omega arith))

  -- All slots of an object that is held are cleared, if only a class can have the array's release
  -- function.
  pub clear_owned_edges_lem :
      (m : Memory)
      → IsExact shape objects m r o
      → living (gone m) objects < fuel
      → (is_array (shape obj).release ≡ true → is_class_type (shape obj).type_of_class ≡ true)
      → Effect shape objects obj m r o (clear_owned_edges shape fuel obj m)
        × (slots_of shape (clear_owned_edges shape fuel obj m) obj ≡ [])
  unfolding clear_owned_edges
  clear_owned_edges_lem m e few tidy = elim (Bool-cases (is_class_type (shape obj).type_of_class)) [
    | inl class ↦
        let (f, no_properties) = properties_part m e few class in
        let m1 =
          if (shape obj).object_property_count == 0
          then m
          else for_loop (length (m.properties obj)) 0 (clear_property shape fuel obj) m in
        let (g, no_elements, same) =
          elements_of_release (shape obj).release m1 refl f.exact (few_after m obj m1 f few) in
        rw class (Effect-then m obj m1 _ f g, rw (no_elements, same) (rw class at no_properties))
    | inr other ↦
        rw other
          (Effect-refl m e, slots_of_other (shape obj).release (m.elements obj) (λ a. cc (tidy a)))
  ]
