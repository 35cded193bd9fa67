-- ===== src/Counting/Loops.antt =====
-- The loops over the slots of an object that is being detached: they give up what it held, one
-- holder after the other.
use am_lang_core.Base.{
  ℕ, zero, suc, ◌+◌, ◌<◌, ◌≤◌, ◌≡◌, refl, sym, ap, ◌∙◌, Bool, true, false, inl, inr, List, [], ◌∷◌,
  ◌++◌, arith, length, length-set, drop, set, get_or, if◌then◌else◌, Bool-cases,
}
use am_lang_core.Counting.Fields.{put, put_at}
use am_lang_core.Counting.Chain.{has, Distinct}
use am_lang_core.Counting.Ledger.{living}
use am_lang_core.Counting.Sound.{gone, IsSound, held_values, held_pointers}
use am_lang_core.Counting.Frame.{GoodDecrease, Frame-refl}
use am_lang_core.Counting.Slots.{
  Step, slot_step, step_clear_properties, step_clear_elements, step_trans, step_few,
}
use am_lang_core.Counting.{
  Shape, Holder, by_property, Memory, Elements, primitive_elements, object_elements, any_elements,
  owns, no_value, any_at, clear_at, element_count, for_loop, property_round, element_round,
}

module _ {ℓ} {A : Type ℓ} where
  drop_cons : (i : ℕ) (l : List A) (d : A) → i < length l → drop i l ≡ get_or l i d ∷ drop (suc i) l
  drop_cons i [] d h = absurd (omega arith)
  drop_cons zero (x ∷ l) d h = refl
  drop_cons (suc i) (x ∷ l) d h = drop_cons i l d (omega arith)

  drop-set : (i : ℕ) (l : List A) (a : A) → drop (suc i) (set l i a) ≡ drop (suc i) l
  drop-set i [] a = refl
  drop-set zero (x ∷ l) a = refl
  drop-set (suc i) (x ∷ l) a = drop-set i l a

  drop_end : (l : List A) (i : ℕ) → length l ≤ i → drop i l ≡ []
  drop_end [] zero h = refl
  drop_end [] (suc i) h = refl
  drop_end (x ∷ l) zero h = absurd (omega arith)
  drop_end (x ∷ l) (suc i) h = drop_end l i (omega arith)

-- What the elements from `i` on hold.
abbrev pub held_from : Elements → ℕ → List ℕ
held_from primitive_elements i = []
held_from (object_elements ps) i = held_pointers (drop i ps)
held_from (any_elements vs) i = held_values (drop i vs)

held_from_next :
    (es : Elements) (i : ℕ)
    → i < element_count es
    → held_from es i ≡ (
        if owns (any_at es i)
        then (any_at es i).value ∷ held_from es (suc i)
        else held_from es (suc i))
unfolding owns
held_from_next primitive_elements i h = absurd (omega arith)
held_from_next (object_elements ps) i h = ground (arith, drop_cons i ps 0 h)
held_from_next (any_elements vs) i h = ap held_values (drop_cons i vs no_value h)

held_from_end : (es : Elements) (i : ℕ) → element_count es ≤ i → held_from es i ≡ []
held_from_end primitive_elements i h = refl
held_from_end (object_elements ps) i h = ap held_pointers (drop_end ps i h)
held_from_end (any_elements vs) i h = ap held_values (drop_end vs i h)

held_from-clear : (es : Elements) (i : ℕ) → held_from (clear_at es i) (suc i) ≡ held_from es (suc i)
held_from-clear primitive_elements i = refl
held_from-clear (object_elements ps) i = ap held_pointers (drop-set i ps 0)
held_from-clear (any_elements vs) i = ap held_values (drop-set i vs no_value)

element_count-clear : (es : Elements) (i : ℕ) → element_count (clear_at es i) ≡ element_count es
element_count-clear primitive_elements i = refl
element_count-clear (object_elements ps) i = length-set ps i 0
element_count-clear (any_elements vs) i = length-set vs i no_value

if-append :
    (b : Bool) (p : ℕ) (l tail : List ℕ)
    → (if b then p ∷ l else l) ++ tail ≡ (if b then p ∷ (l ++ tail) else l ++ tail)
if-append true p l tail = refl
if-append false p l tail = refl

module _ (shape : ℕ → Shape) (objects : List ℕ) (apart : Distinct objects)
    (no_null : has 0 objects ≡ false) (busy : ℕ) (k : ℕ) (decrease : Holder → ℕ → Memory → Memory)
    (good : GoodDecrease shape objects busy k decrease) (q : ℕ) (hq : has q objects ≡ true)
    (r o : ℕ → ℕ) (alive : has busy objects ≡ true → 0 < r busy) where
  property_round_step :
      (i : ℕ) (m : Memory) (w s : ℕ → List ℕ) (list : List ℕ)
      → IsSound shape objects busy m w s r o list
      → living (gone m) objects < k
      → gone m q ≡ true
      → s q ≡ held_values (drop i (m.properties q))
      → i < length (m.properties q)
      → Step shape objects apart no_null busy k decrease good q hq r o alive m w s
          (property_round shape decrease q i m)
          (held_values (drop (suc i) (m.properties q)))
        × (drop (suc i) ((property_round shape decrease q i m).properties q)
            ≡ drop (suc i) (m.properties q))
        × (length ((property_round shape decrease q i m).properties q) ≡ length (m.properties q))
  unfolding property_round
  property_round_step i m w s list v few dead e inside =
      let x = get_or (m.properties q) i no_value in
      let rest = held_values (drop (suc i) (m.properties q)) in
      let split = drop_cons i (m.properties q) no_value inside in
      let (st, same, _) =
        slot_step shape objects apart no_null busy k decrease good q hq r o alive m w s list v few
          dead x rest (e ∙ ap held_values split) in
      elim (Bool-cases (owns x)) [
        | inl holds ↦
            let m' = decrease by_property x.value m in
            let vs = set (m'.properties q) i (record x { value = 0 }) in
            let same' : m'.properties q ≡ m.properties q = rw holds at same in
            rw holds (
              step_clear_properties shape objects apart no_null busy k decrease good q hq r o alive
                  m w s dead m' rest vs (rw holds at st),
              rw
                  (
                    put_at m'.properties q vs,
                    drop-set i (m'.properties q) (record x { value = 0 }),
                    same',
                  )
                  refl,
              rw
                  (
                    put_at m'.properties q vs,
                    length-set (m'.properties q) i (record x { value = 0 }),
                    same',
                  )
                  refl,
            )
        | inr free ↦ rw free (rw free at st, refl, refl)
      ]

  pub properties_loop :
      (left i : ℕ) (m : Memory) (w s : ℕ → List ℕ) (list : List ℕ)
      → IsSound shape objects busy m w s r o list
      → living (gone m) objects < k
      → gone m q ≡ true
      → s q ≡ held_values (drop i (m.properties q))
      → i + left ≡ length (m.properties q)
      → Step shape objects apart no_null busy k decrease good q hq r o alive m w s
          (for_loop left i (property_round shape decrease q) m)
          []
  unfolding for_loop
  properties_loop zero i m w s list v few dead e size = record {
    outcome = record {
      wraps = w;
      slots = s;
      list = list;
      sound = v;
      frame = Frame-refl objects q m w s;
    };
    left = e ∙ ap held_values (drop_end (m.properties q) i (omega arith));
    same_wraps = refl;
  }
  properties_loop (suc left) i m w s list v few dead e size =
      let (st, same, len) = property_round_step i m w s list v few dead e (omega arith) in
      let m' = property_round shape decrease q i m in
      let rest = held_values (drop (suc i) (m.properties q)) in
      let later =
        properties_loop left (suc i) m' st.outcome.wraps st.outcome.slots st.outcome.list
          st.outcome.sound
          (step_few shape objects apart no_null busy k decrease good q hq r o alive m w s dead m'
            rest st few)
          (st.outcome.frame.stays q dead) (st.left ∙ ap held_values (sym same))
          (omega (arith, len)) in
      step_trans shape objects apart no_null busy k decrease good q hq r o alive m w s dead m' _
        rest [] st later

  element_round_step :
      (i : ℕ) (m : Memory) (w s : ℕ → List ℕ) (list tail : List ℕ)
      → IsSound shape objects busy m w s r o list
      → living (gone m) objects < k
      → gone m q ≡ true
      → s q ≡ held_from (m.elements q) i ++ tail
      → i < element_count (m.elements q)
      → Step shape objects apart no_null busy k decrease good q hq r o alive m w s
          (element_round shape decrease q i m)
          (held_from (m.elements q) (suc i) ++ tail)
        × (held_from ((element_round shape decrease q i m).elements q) (suc i)
            ≡ held_from (m.elements q) (suc i))
        × (element_count ((element_round shape decrease q i m).elements q)
            ≡ element_count (m.elements q))
        × ((element_round shape decrease q i m).properties q ≡ m.properties q)
  unfolding element_round
  element_round_step i m w s list tail v few dead e inside =
      let es = m.elements q in
      let x = any_at es i in
      let rest = held_from es (suc i) ++ tail in
      let split = ap (λ l. l ++ tail) (held_from_next es i inside) in
      let (st, same_properties, same) =
        slot_step shape objects apart no_null busy k decrease good q hq r o alive m w s list v few
          dead x rest (e ∙ split ∙ if-append (owns x) x.value (held_from es (suc i)) tail) in
      let m' = if owns x then decrease by_property x.value m else m in
      let es' = clear_at (m'.elements q) i in
      let at : put m'.elements q es' q ≡ es' = put_at m'.elements q es' in
      (
        step_clear_elements shape objects apart no_null busy k decrease good q hq r o alive m w s
            dead m' rest es' st,
        rw (at, held_from-clear (m'.elements q) i, same) refl,
        rw (at, element_count-clear (m'.elements q) i, same) refl,
        same_properties,
      )

  -- The loop leaves what the object holds by its properties, and the properties themselves.
  pub elements_loop :
      (left i : ℕ) (m : Memory) (w s : ℕ → List ℕ) (list tail : List ℕ)
      → IsSound shape objects busy m w s r o list
      → living (gone m) objects < k
      → gone m q ≡ true
      → s q ≡ held_from (m.elements q) i ++ tail
      → i + left ≡ element_count (m.elements q)
      → Step shape objects apart no_null busy k decrease good q hq r o alive m w s
          (for_loop left i (element_round shape decrease q) m)
          tail
        × ((for_loop left i (element_round shape decrease q) m).properties q ≡ m.properties q)
  unfolding for_loop
  elements_loop zero i m w s list tail v few dead e size = (
    record {
      outcome = record {
        wraps = w;
        slots = s;
        list = list;
        sound = v;
        frame = Frame-refl objects q m w s;
      };
      left = e ∙ ap (λ l. l ++ tail) (held_from_end (m.elements q) i (omega arith));
      same_wraps = refl;
    },
    refl,
  )
  elements_loop (suc left) i m w s list tail v few dead e size =
      let (st, same, len, props) =
        element_round_step i m w s list tail v few dead e (omega arith) in
      let m' = element_round shape decrease q i m in
      let rest = held_from (m.elements q) (suc i) ++ tail in
      let later =
        elements_loop left (suc i) m' st.outcome.wraps st.outcome.slots st.outcome.list tail
          st.outcome.sound
          (step_few shape objects apart no_null busy k decrease good q hq r o alive m w s dead m'
            rest st few)
          (st.outcome.frame.stays q dead) (st.left ∙ ap (λ l. l ++ tail) (sym same))
          (omega (arith, len)) in
      (
        step_trans shape objects apart no_null busy k decrease good q hq r o alive m w s dead m' _
            rest tail st later.0,
        later.1 ∙ props,
      )
