-- ===== src/Counting/Detach.antt =====
-- `__detach_object` of src/native-c/libc/core.c: everything that the object held is given up.
use am_lang_core.Base.{
  ℕ, ◌<◌, ◌≡◌, refl, sym, ap, ◌∙◌, Bool, true, false, inl, inr, List, [], ◌∷◌, ◌++◌, arith, length,
  ◌==◌, ==_iff, if◌then◌else◌, Bool-cases,
}
use am_lang_core.Counting.Fields.{put, put_at, put_self}
use am_lang_core.Counting.Chain.{has, Distinct}
use am_lang_core.Counting.Ledger.{living, living_le}
use am_lang_core.Counting.Sound.{
  gone, IsSound, held_values, held_pointers, held_elements, held_by_release, has_slots, slots_of,
  wraps_of,
}
use am_lang_core.Counting.Moves.{take_wrap}
use am_lang_core.Counting.Frame.{Outcome, GoodDecrease, Frame-refl, Frame-trans, Frame-put}
use am_lang_core.Counting.Slots.{Step, step_clear_properties, step_few}
use am_lang_core.Counting.Loops.{properties_loop, elements_loop, held_from}
use am_lang_core.Counting.{
  Shape, Release, no_release, array_release, data_release, Holder, by_reference, Memory, Elements,
  primitive_elements, object_elements, any_elements, element_count, for_loop, property_round,
  release_hook, detach_object, is_interface_type,
}

held_from_zero : (es : Elements) → held_elements es ≡ held_from es 0
held_from_zero primitive_elements = refl
held_from_zero (object_elements ps) = refl
held_from_zero (any_elements vs) = refl

module _ (shape : ℕ → Shape) (objects : List ℕ) (apart : Distinct objects)
    (no_null : has 0 objects ≡ false) (busy : ℕ) (k : ℕ) (decrease : Holder → ℕ → Memory → Memory)
    (good : GoodDecrease shape objects busy k decrease) (q : ℕ) (hq : has q objects ≡ true)
    (r o : ℕ → ℕ) (alive : has busy objects ≡ true → 0 < r busy) where
  module _ (m : Memory) (w s : ℕ → List ℕ) (list : List ℕ)
      (v : IsSound shape objects busy m w s r o list) (few : living (gone m) objects < k)
      (dead : gone m q ≡ true) where
    nothing :
        (rest : List ℕ)
        → s q ≡ rest
        → Step shape objects apart no_null busy k decrease good q hq r o alive m w s m rest
    nothing rest e = record {
      outcome = record {
        wraps = w;
        slots = s;
        list = list;
        sound = v;
        frame = Frame-refl objects q m w s;
      };
      left = e;
      same_wraps = refl;
    }

    hook_step :
        (release : Release) (tail : List ℕ)
        → s q ≡ held_by_release release (m.elements q) ++ tail
        → Step shape objects apart no_null busy k decrease good q hq r o alive m w s
            (release_hook shape decrease release q m)
            tail
          × ((release_hook shape decrease release q m).properties q ≡ m.properties q)
    unfolding release_hook
    hook_step no_release tail e = (nothing tail e, refl)
    hook_step data_release tail e = (nothing tail e, refl)
    hook_step array_release tail e =
        elements_loop shape objects apart no_null busy k decrease good q hq r o alive
          (element_count (m.elements q)) 0 m w s list tail v few dead
          (e ∙ ap (λ l. l ++ tail) (held_from_zero (m.elements q))) (omega arith)

    -- After giving up what it wraps, an object holds the same slots as before.
    record Unwrapped (m' : Memory) : Type 0 where
      outcome : Outcome shape objects busy q m w s r o m'
      slots_left : outcome.slots q ≡ s q
      none_wrapped : outcome.wraps q ≡ []
      same_properties : m'.properties q ≡ m.properties q

    unwrap_step :
        (impl : ℕ) (wrapper : Bool)
        → w q ≡ (if wrapper then held_pointers (impl ∷ []) else [])
        → Unwrapped (if wrapper then decrease by_reference impl m else m)
    unfolding nothing
    unwrap_step impl false e = record {
      outcome = (nothing (s q) refl).outcome;
      slots_left = refl;
      none_wrapped = e;
      same_properties = refl;
    }
    unwrap_step impl true e = elim (Bool-cases (impl == 0)) [
      | inl null ↦
          let is_null = (==_iff impl 0).0 null in
          rw (is_null, good.null by_reference m)
            (record {
              outcome = (nothing (s q) refl).outcome;
              slots_left = refl;
              none_wrapped = e ∙ rw null refl;
              same_properties = refl;
            })
      | inr there ↦
          let (taken, member) =
            take_wrap shape objects apart no_null busy m w s r o list v q impl [] hq dead
              (e ∙ rw there refl) in
          let res = good.reference impl m (put w q []) s r o list taken member few alive in
          let kept = res.frame.kept q hq dead (λ z. ground arith) in
          record {
            outcome = record {
              wraps = res.wraps;
              slots = res.slots;
              list = res.list;
              sound = res.sound;
              frame =
                  Frame-put objects q m _ w s res.wraps res.slots [] (s q) no_null dead
                    (rw (put_self s q) res.frame);
            };
            slots_left = kept.1;
            none_wrapped = kept.0 ∙ put_at w q [];
            same_properties = kept.2;
          }
    ]

    properties_step :
        (slotted : Bool)
        → s q ≡ (if slotted then held_values (m.properties q) else [])
        → Step shape objects apart no_null busy k decrease good q hq r o alive m w s
            (let cleared =
                for_loop (length (m.properties q)) 0 (property_round shape decrease q) m in
              if slotted then record cleared { properties = put cleared.properties q [] } else m)
            []
    properties_step false e = nothing [] e
    properties_step true e =
        step_clear_properties shape objects apart no_null busy k decrease good q hq r o alive m w s
          dead _ [] []
          (properties_loop shape objects apart no_null busy k decrease good q hq r o alive
            (length (m.properties q)) 0 m w s list v few dead e (omega arith))

  -- Everything that an object held is given up.
  pub record Detached (m : Memory) (w s : ℕ → List ℕ) (m' : Memory) : Type 0 where
    pub outcome : Outcome shape objects busy q m w s r o m'
    pub no_slots : outcome.slots q ≡ []
    pub no_wraps : outcome.wraps q ≡ []

  pub detach_lem :
      (u : Memory) (w s : ℕ → List ℕ) (list : List ℕ)
      → u.pending_deallocation q ≡ false
      → IsSound shape objects busy
          (record u { pending_deallocation = put u.pending_deallocation q true })
          w
          s
          r
          o
          list
      → w q ≡ wraps_of shape q
      → s q ≡ slots_of shape u q
      → living
          (gone (record u { pending_deallocation = put u.pending_deallocation q true }))
          objects
        < k
      → Detached
          (record u { pending_deallocation = put u.pending_deallocation q true })
          w
          s
          (detach_object shape decrease q u)
  unfolding detach_object
  detach_lem u w s list fresh v wrapped slotted few =
      let m0 = record u { pending_deallocation = put u.pending_deallocation q true } in
      let dead : gone m0 q ≡ true = rw (put_at u.pending_deallocation q true) refl in
      let tail = if has_slots shape q then held_values (u.properties q) else [] in
      let (a, props) = hook_step m0 w s list v few dead (shape q).release tail slotted in
      let m1 = release_hook shape decrease (shape q).release q m0 in
      let few1 =
        step_few shape objects apart no_null busy k decrease good q hq r o alive m0 w s dead m1 tail
          a few in
      let b =
        unwrap_step m1 a.outcome.wraps a.outcome.slots a.outcome.list a.outcome.sound few1
          (a.outcome.frame.stays q dead) (shape q).implementation_object
          (is_interface_type (shape q).type_of_class) (a.same_wraps ∙ wrapped) in
      let m2 =
        if is_interface_type (shape q).type_of_class
        then decrease by_reference (shape q).implementation_object m1
        else m1 in
      let few2 : living (gone m2) objects < k =
        omega (arith, living_le (gone m1) (gone m2) objects b.outcome.frame.stays) in
      let dead2 = b.outcome.frame.stays q (a.outcome.frame.stays q dead) in
      let e2 : b.outcome.slots q
          ≡ (if has_slots shape q then held_values (m2.properties q) else []) =
        b.slots_left
        ∙ a.left
        ∙ ap (λ l. if has_slots shape q then held_values l else [])
            (sym (b.same_properties ∙ props)) in
      let c =
        properties_step m2 b.outcome.wraps b.outcome.slots b.outcome.list b.outcome.sound few2 dead2
          (has_slots shape q) e2 in
      let f =
        Frame-trans objects q m0 m1 m2 w s a.outcome.wraps a.outcome.slots b.outcome.wraps
          b.outcome.slots dead a.outcome.frame b.outcome.frame in
      rw fresh (record {
        outcome = record {
          wraps = c.outcome.wraps;
          slots = c.outcome.slots;
          list = c.outcome.list;
          sound = c.outcome.sound;
          frame =
              Frame-trans objects q m0 m2 _ w s b.outcome.wraps b.outcome.slots c.outcome.wraps
                c.outcome.slots dead f c.outcome.frame;
        };
        no_slots = c.left;
        no_wraps = c.same_wraps ∙ b.none_wrapped;
      })
