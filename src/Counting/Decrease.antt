-- ===== src/Counting/Decrease.antt =====
-- Giving up a holder keeps the counts sound, whatever it sets off.
use am_lang_core.Base.{
  ℕ, zero, suc, ◌-◌, ◌^◌, ◌<◌, ◌≡◌, ◌≢◌, refl, sym, ap, ◌∙◌, Bool, true, false, not, ◌&&◌, ◌||◌,
  inl, inr, List, ◌∷◌, arith, ◌==◌, ==_iff, if◌then◌else◌, Bool-cases,
}
use am_lang_core.Counting.Fields.{put}
use am_lang_core.Counting.Chain.{has, Distinct, relinked, unlink_lem}
use am_lang_core.Counting.Ledger.{count, living, living_lt}
use am_lang_core.Counting.Sound.{gone, plus, IsSound}
use am_lang_core.Counting.Moves.{
  lower_property, last_property, lower_reference, last_reference, immortal_property,
}
use am_lang_core.Counting.Frame.{Outcome, GoodDecrease}
use am_lang_core.Counting.Bury.{marked, plain_empty, Buried, deallocate_lem}
use am_lang_core.Counting.{
  Shape, Holder, by_property, by_reference, Memory, down, is_plain, unlink, free_object,
  deallocate_object, decrease_property_step, decrease_reference_step, decrease,
}

-- `count--` of a positive count.
down-suc : (c : ℕ) → suc c < 2 ^ 32 → down (suc c) ≡ c
down-suc c h = omega arith

pub absurd_bool {ℓ} : {A : Type ℓ} (b : Bool) → b ≡ false → b ≡ true → A
absurd_bool b e f = cc

module _ (shape : ℕ → Shape) (objects : List ℕ) (apart : Distinct objects)
    (no_null : has 0 objects ≡ false) (busy : ℕ) (p : ℕ) (hp : has p objects ≡ true) (r o : ℕ → ℕ)
    (alive : has busy objects ≡ true → 0 < r busy) where
  -- The whole way of `p` out of the heap.
  buried_outcome :
      (m m0 m' : Memory) (w s : ℕ → List ℕ)
      → gone m p ≡ false
      → ((q : ℕ) → gone m0 q ≡ (gone m q || (q == p)))
      → m0.properties ≡ m.properties
      → m0.elements ≡ m.elements
      → m0.freed ≡ m.freed
      → m0.allocation_count ≡ m.allocation_count
      → Buried shape objects apart no_null busy p hp r o alive m0 w s m'
      → Outcome shape objects busy 0 m w s r o m'
  buried_outcome m m0 m' w s there now props elems freed allocated b = record {
    wraps = b.wraps;
    slots = b.slots;
    list = b.list;
    sound = b.sound;
    frame = record {
      stays = λ q h. ground (arith, now q, b.stays q);
      kept = λ q h d ne.
          let k = b.kept q h (ground (arith, now q)) (λ same. ground arith) in
          (k.0, k.1, k.2 ∙ ap (λ f. f q) props, k.3 ∙ ap (λ f. f q) elems);
      spared = λ q h d.
          let k = b.spared q h d in
          (k.0, k.1, k.2 ∙ ap (λ f. f q) props, k.3 ∙ ap (λ f. f q) elems);
      emptied = λ q h a d. elim (Bool-cases (q == p)) [
        | inl e ↦ rw ((==_iff q p).0 e) b.itself
        | inr e ↦ b.emptied q h (ground (arith, now q)) d
      ];
      once = λ q. elim (Bool-cases (q == p)) [
        | inl e ↦ ground (arith, b.once q, now q, ap (count q) freed)
        | inr e ↦ ground (arith, b.once q, now q, ap (count q) freed)
      ];
      allocated = b.allocated ∙ rw (freed, allocated) refl;
    };
  }

  -- The same counts and slots, nothing freed.
  pub quiet :
      (m m' : Memory) (w s : ℕ → List ℕ) (list : List ℕ)
      → m'.pending_deallocation ≡ m.pending_deallocation
      → m'.freed ≡ m.freed
      → m'.properties ≡ m.properties
      → m'.elements ≡ m.elements
      → m'.allocation_count ≡ m.allocation_count
      → IsSound shape objects busy m' w s r o list
      → Outcome shape objects busy 0 m w s r o m'
  quiet m m' w s list pending freed props elems allocated v = record {
    wraps = w;
    slots = s;
    list = list;
    sound = v;
    frame = record {
      stays = λ q d. rw (pending, freed) d;
      kept = λ q h d ne. (refl, refl, ap (λ f. f q) props, ap (λ f. f q) elems);
      spared = λ q h d. (refl, refl, ap (λ f. f q) props, ap (λ f. f q) elems);
      emptied = λ q h a b. absurd_bool (gone m q) a (rw (sym pending, sym freed) b);
      once = λ q. rw (pending, freed) refl;
      allocated = rw (freed, allocated) refl;
    };
  }

  module _ (k : ℕ) (decrease : Holder → ℕ → Memory → Memory)
      (good : GoodDecrease shape objects busy k decrease) (m : Memory) (w s : ℕ → List ℕ)
      (list : List ℕ) (few : living (gone m) objects < suc k) where
    abbrev lowered_property : ℕ → Memory
    lowered_property c = record m { property_reference_count = put m.property_reference_count p c }

    property_step_eq :
        (c : ℕ)
        → (shape p).immortal ≡ false
        → m.property_reference_count p ≡ suc c
        → suc c < 2 ^ 32
        → decrease_property_step shape decrease p m ≡ (
            let low = lowered_property c in
            let unlinked = unlink p low in
            if (c == 0) && not (m.pending_deallocation p)
            then if unlinked.reference_count p == 0
              then deallocate_object shape decrease p unlinked
              else unlinked
            else low)
    unfolding decrease_property_step
    property_step_eq c mortal is small =
        let down_is : down (m.property_reference_count p) ≡ c = rw is (down-suc c small) in
        let real : (p == 0) ≡ false = ground arith in
        rw (real, mortal, (==_iff p p).1 refl, down_is) refl

    -- The last property holder gives up an object that has references: it leaves the list.
    last_property_step :
        IsSound shape objects busy m w s r (plus o p) list
        → (shape p).immortal ≡ false
        → m.property_reference_count p ≡ 1
        → Outcome shape objects busy 0 m w s r o (decrease_property_step shape decrease p m)
    last_property_step v mortal is =
        let low = lowered_property 0 in
        let member : has p list ≡ true = ground (arith, v.listed p) in
        let there : gone m p ≡ false = ground (arith, v.dead p) in
        let fresh : m.pending_deallocation p ≡ false = ground arith in
        let (first, next, prev, e, chain, cleared, kept) =
          unlink_lem p low list v.chain v.distinct member in
        rw (property_step_eq 0 mortal is (omega arith), fresh, e)
          (elim (Bool-cases (m.reference_count p == 0)) [
            | inl unheld ↦
                let u = relinked low first next prev in
                let free : p ≢ busy = λ same. ground (arith, v.references p hp) in
                let holds = v.holds p hp there free in
                let sound =
                  last_property shape objects apart no_null busy m w s r o list p hp v first next
                    prev (put m.pending_deallocation p true) is chain cleared kept
                    (λ q. ground (arith, unheld)) in
                let fewer : living (gone (marked u p)) objects < k = omega (
                  arith,
                  living_lt (gone m) (gone (marked u p)) p objects (λ q d. ground arith) hp there
                      (ground arith),
                ) in
                rw unheld (
                  buried_outcome m (marked u p) _ w s there (λ q. ground arith) refl refl refl refl
                    (deallocate_lem shape objects apart no_null busy p hp r o alive k decrease good
                      u w s _ fresh sound holds.0 holds.1 fewer))
            | inr held ↦ rw held (
                quiet m _ w s _ refl refl refl refl refl (
                  last_property shape objects apart no_null busy m w s r o list p hp v first next
                    prev m.pending_deallocation is chain cleared kept
                    (λ q. ground (arith, held, there))))
          ])

    property_step_immortal :
        (shape p).immortal ≡ true → decrease_property_step shape decrease p m ≡ m
    unfolding decrease_property_step
    property_step_immortal immortal =
        let real : (p == 0) ≡ false = ground arith in rw (real, immortal) refl

    property_step_lem :
        IsSound shape objects busy m w s r (plus o p) list
        → Outcome shape objects busy 0 m w s r o (decrease_property_step shape decrease p m)
    property_step_lem v = elim (Bool-cases (shape p).immortal) [
      | inl immortal ↦ rw (property_step_immortal immortal) (
          quiet m m w s list refl refl refl refl refl
            (immortal_property shape objects apart no_null busy m w s r o list p v immortal))
      | inr mortal ↦
          let c = m.property_reference_count p - 1 in
          let is : m.property_reference_count p ≡ suc c =
            ground (arith, v.properties p hp mortal) in
          elim (Bool-cases (c == 0)) [
            | inl last ↦ last_property_step v mortal (ground arith)
            | inr more ↦
                rw (property_step_eq c mortal is (omega (arith, (v.small p hp).1)), more)
                  (quiet m _ w s list refl refl refl refl refl (
                    lower_property shape objects apart no_null busy m w s r o list p hp v c is
                      (ground arith)))
          ]
    ]

    abbrev lowered_reference : ℕ → Memory
    lowered_reference c = record m { reference_count = put m.reference_count p c }

    reference_step_eq :
        (c : ℕ)
        → m.reference_count p ≡ suc c
        → suc c < 2 ^ 32
        → decrease_reference_step shape decrease p m ≡ (
            let low = lowered_reference c in
            if (c == 0) && (m.property_reference_count p == 0)
            then if (shape p).chunked && not (m.pending_deallocation p) && is_plain shape p
              then free_object p low
              else deallocate_object shape decrease p low
            else low)
    unfolding decrease_reference_step
    reference_step_eq c is small =
        let down_is : down (m.reference_count p) ≡ c = rw is (down-suc c small) in
        let real : (p == 0) ≡ false = ground arith in rw (real, (==_iff p p).1 refl, down_is) refl

    -- A plain object of an arena goes without being marked.
    plain_reference_step :
        IsSound shape objects busy m w s (plus r p) o list
        → m.reference_count p ≡ 1
        → m.property_reference_count p ≡ 0
        → is_plain shape p ≡ true
        → Outcome shape objects busy 0 m w s r o (free_object p (lowered_reference 0))
    unfolding free_object
    plain_reference_step v is unheld plain =
        let there : gone m p ≡ false = ground (arith, v.dead p) in
        let free : p ≢ busy = λ same. ground (arith, v.references p hp) in
        let holds = v.holds p hp there free in
        let empty = plain_empty shape p m plain in
        record {
          wraps = w;
          slots = s;
          list = list;
          sound =
              last_reference shape objects apart no_null busy m w s r o list p hp v
                m.pending_deallocation (p ∷ m.freed) (down m.allocation_count) is unheld
                (λ q. ground arith);
          frame = record {
            stays = λ q d. ground arith;
            kept = λ q h d ne. (refl, refl, refl, refl);
            spared = λ q h d. (refl, refl, refl, refl);
            emptied = λ q h a b.
                let same : q ≡ p = ground arith in rw same (holds.0 ∙ empty.0, holds.1 ∙ empty.1);
            once = λ q. ground arith;
            allocated = omega arith;
          };
        }

    marked_reference_step :
        IsSound shape objects busy m w s (plus r p) o list
        → m.reference_count p ≡ 1
        → m.property_reference_count p ≡ 0
        → Outcome shape objects busy 0 m w s r o
            (deallocate_object shape decrease p (lowered_reference 0))
    marked_reference_step v is unheld =
        let there : gone m p ≡ false = ground (arith, v.dead p) in
        let fresh : m.pending_deallocation p ≡ false = ground arith in
        let free : p ≢ busy = λ same. ground (arith, v.references p hp) in
        let holds = v.holds p hp there free in
        let u = lowered_reference 0 in
        let sound =
          last_reference shape objects apart no_null busy m w s r o list p hp v
            (put m.pending_deallocation p true) m.freed m.allocation_count is unheld
            (λ q. ground arith) in
        let fewer : living (gone (marked u p)) objects < k = omega (
          arith,
          living_lt (gone m) (gone (marked u p)) p objects (λ q d. ground arith) hp there
              (ground arith),
        ) in
        buried_outcome m (marked u p) _ w s there (λ q. ground arith) refl refl refl refl
          (deallocate_lem shape objects apart no_null busy p hp r o alive k decrease good u w s list
            fresh sound holds.0 holds.1 fewer)

    reference_step_lem :
        IsSound shape objects busy m w s (plus r p) o list
        → Outcome shape objects busy 0 m w s r o (decrease_reference_step shape decrease p m)
    reference_step_lem v =
        let c = m.reference_count p - 1 in
        let is : m.reference_count p ≡ suc c = ground (arith, v.references p hp) in
        let small : suc c < 2 ^ 32 = omega (arith, (v.small p hp).0) in
        rw (reference_step_eq c is small)
          (elim (Bool-cases ((c == 0) && (m.property_reference_count p == 0))) [
            | inl last ↦
                let zero_left : c ≡ 0 = ground arith in
                let unheld : m.property_reference_count p ≡ 0 = ground arith in
                let one : m.reference_count p ≡ 1 = ground arith in
                rw (last, zero_left)
                  (elim (Bool-cases
                    ((shape p).chunked && not (m.pending_deallocation p) && is_plain shape p)) [
                      | inl plain ↦ rw plain (plain_reference_step v one unheld (ground arith))
                      | inr other ↦ rw other (marked_reference_step v one unheld)
                    ])
            | inr held ↦ rw held (
                quiet m _ w s list refl refl refl refl refl (
                  lower_reference shape objects apart no_null busy m w s r o list p hp v c is
                    (ground arith)))
          ])

-- Giving up a holder, with more fuel than objects that are left: the counts stay sound.
pub decrease-IsGood :
    (shape : ℕ → Shape) (objects : List ℕ)
    → Distinct objects
    → has 0 objects ≡ false
    → (busy : ℕ) → (fuel : ℕ) → GoodDecrease shape objects busy fuel (decrease shape fuel)
unfolding decrease decrease_property_step decrease_reference_step
decrease-IsGood shape objects apart no_null busy zero = record {
  null = λ holder m. refl;
  property = λ p m w s r o list v hp few alive. absurd (omega arith);
  reference = λ p m w s r o list v hp few alive. absurd (omega arith);
}
decrease-IsGood shape objects apart no_null busy (suc fuel) =
    let good = decrease-IsGood shape objects apart no_null busy fuel in
    record {
      null = λ holder m. elim holder as (λ h. decrease shape (suc fuel) h 0 m ≡ m) [
        | by_property ↦ refl
        | by_reference ↦ refl
      ];
      property = λ p m w s r o list v hp few alive.
          property_step_lem shape objects apart no_null busy p hp r o alive fuel
            (decrease shape fuel) good m w s list few v;
      reference = λ p m w s r o list v hp few alive.
          reference_step_lem shape objects apart no_null busy p hp r o alive fuel
            (decrease shape fuel) good m w s list few v;
    }
