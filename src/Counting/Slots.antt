-- ===== src/Counting/Slots.antt =====
-- Giving up one slot of an object that is being detached.
use am_lang_core.Base.{
  ℕ, ◌<◌, ◌≡◌, refl, ◌∙◌, true, false, inl, inr, List, ◌∷◌, arith, if◌then◌else◌, Bool-cases,
}
use am_lang_core.Values.{NullableValue}
use am_lang_core.Counting.Fields.{put, put_self}
use am_lang_core.Counting.Chain.{has, Distinct}
use am_lang_core.Counting.Ledger.{living, living_le}
use am_lang_core.Counting.Sound.{gone, IsSound}
use am_lang_core.Counting.Moves.{take_slot, clear_properties, clear_elements}
use am_lang_core.Counting.Frame.{Outcome, GoodDecrease, Frame-refl, Frame-trans, Frame-put}
use am_lang_core.Counting.{Shape, Holder, by_property, Memory, Elements, owns}

module _ (shape : ℕ → Shape) (objects : List ℕ) (apart : Distinct objects)
    (no_null : has 0 objects ≡ false) (busy : ℕ) (k : ℕ) (decrease : Holder → ℕ → Memory → Memory)
    (good : GoodDecrease shape objects busy k decrease) (q : ℕ) (hq : has q objects ≡ true)
    (r o : ℕ → ℕ) (alive : has busy objects ≡ true → 0 < r busy) where
  -- After giving up slots of `q`, with the slots that are left.
  pub record Step (m : Memory) (w s : ℕ → List ℕ) (m' : Memory) (rest : List ℕ) : Type 0 where
    pub outcome : Outcome shape objects busy q m w s r o m'
    pub left : outcome.slots q ≡ rest
    pub same_wraps : outcome.wraps q ≡ w q

  module _ (m : Memory) (w s : ℕ → List ℕ) (list : List ℕ)
      (v : IsSound shape objects busy m w s r o list) (few : living (gone m) objects < k)
      (dead : gone m q ≡ true) where
    pub slot_step :
        (x : NullableValue) (rest : List ℕ)
        → s q ≡ (if owns x then x.value ∷ rest else rest)
        → Step m w s (if owns x then decrease by_property x.value m else m) rest
          × ((if owns x then decrease by_property x.value m else m).properties q ≡ m.properties q)
          × ((if owns x then decrease by_property x.value m else m).elements q ≡ m.elements q)
    slot_step x rest e = elim (Bool-cases (owns x)) [
      | inl holds ↦
          let (taken, member) =
            take_slot shape objects apart no_null busy m w s r o list v q x.value rest hq dead
              (e ∙ rw holds refl) in
          let res = good.property x.value m w (put s q rest) r o list taken member few alive in
          let kept = res.frame.kept q hq dead (λ z. ground arith) in
          rw holds (
            record {
              outcome = record {
                wraps = res.wraps;
                slots = res.slots;
                list = res.list;
                sound = res.sound;
                frame =
                    Frame-put objects q m _ w s res.wraps res.slots (w q) rest no_null dead
                      (rw (put_self w q) res.frame);
              };
              left = ground (arith, kept);
              same_wraps = kept.0;
            },
            kept.2,
            kept.3,
          )
      | inr free ↦ rw free (
        record {
          outcome = record {
            wraps = w;
            slots = s;
            list = list;
            sound = v;
            frame = Frame-refl objects q m w s;
          };
          left = e ∙ rw free refl;
          same_wraps = refl;
        },
        refl,
        refl,
      )
    ]

  module _ (m : Memory) (w s : ℕ → List ℕ) (dead : gone m q ≡ true) where
    pub step_clear_properties :
        (m' : Memory) (rest : List ℕ) (vs : List NullableValue)
        → Step m w s m' rest
        → Step m w s (record m' { properties = put m'.properties q vs }) rest
    step_clear_properties m' rest vs st =
        let res = st.outcome in
        record {
          outcome = record {
            wraps = res.wraps;
            slots = res.slots;
            list = res.list;
            sound =
                clear_properties shape objects apart no_null busy m' res.wraps res.slots r o
                  res.list res.sound q vs (res.frame.stays q dead);
            frame = record {
              stays = res.frame.stays;
              kept = λ x h d ne. ground (arith, res.frame.kept x h d ne);
              spared = λ x h d. ground (arith, res.frame.stays q, res.frame.spared x h d);
              emptied = res.frame.emptied;
              once = res.frame.once;
              allocated = res.frame.allocated;
            };
          };
          left = st.left;
          same_wraps = st.same_wraps;
        }

    pub step_clear_elements :
        (m' : Memory) (rest : List ℕ) (es : Elements)
        → Step m w s m' rest
        → Step m w s (record m' { elements = put m'.elements q es }) rest
    step_clear_elements m' rest es st =
        let res = st.outcome in
        record {
          outcome = record {
            wraps = res.wraps;
            slots = res.slots;
            list = res.list;
            sound =
                clear_elements shape objects apart no_null busy m' res.wraps res.slots r o res.list
                  res.sound q es (res.frame.stays q dead);
            frame = record {
              stays = res.frame.stays;
              kept = λ x h d ne. ground (arith, res.frame.kept x h d ne);
              spared = λ x h d. ground (arith, res.frame.stays q, res.frame.spared x h d);
              emptied = res.frame.emptied;
              once = res.frame.once;
              allocated = res.frame.allocated;
            };
          };
          left = st.left;
          same_wraps = st.same_wraps;
        }

    pub step_trans :
        (m' m'' : Memory) (rest rest' : List ℕ)
        → (st : Step m w s m' rest) → Step m' st.outcome.wraps st.outcome.slots m'' rest'
        → Step m w s m'' rest'
    step_trans m' m'' rest rest' st st' =
        let a = st.outcome in
        let b = st'.outcome in
        record {
          outcome = record {
            wraps = b.wraps;
            slots = b.slots;
            list = b.list;
            sound = b.sound;
            frame =
                Frame-trans objects q m m' m'' w s a.wraps a.slots b.wraps b.slots dead a.frame
                  b.frame;
          };
          left = st'.left;
          same_wraps = st'.same_wraps ∙ st.same_wraps;
        }

    pub step_few :
        (m' : Memory) (rest : List ℕ)
        → Step m w s m' rest
        → living (gone m) objects < k
        → living (gone m') objects < k
    step_few m' rest st few =
        omega (arith, living_le (gone m) (gone m') objects st.outcome.frame.stays)
