-- ===== src/Counting/Clear.antt =====
-- Clearing the slots of an object that is held: src/native-c/libc/Am/Lang/GC.c, `gc_clear_owned_edges`.
use am_lang_core.Base.{
  ℕ, zero, suc, ◌+◌, ◌%◌, ◌^◌, ◌<◌, ◌≡◌, ◌≢◌, refl, ◌∙◌, true, false, List, [], ◌∷◌, arith, All,
  length, get_or, set, ◌==◌, if◌then◌else◌, Bool-cases, inl, inr, ==_iff,
}
use am_lang_core.Values.{NullableValue}
use am_lang_core.Counting.Fields.{put, put_at}
use am_lang_core.Counting.Chain.{has, Distinct}
use am_lang_core.Counting.Ledger.{count, living, All-has, has_of_count, of_All, count_of_has}
use am_lang_core.Counting.Sound.{gone, plus, slots_of}
use am_lang_core.Counting.Frame.{Outcome}
use am_lang_core.Counting.Decrease.{decrease-IsGood}
use am_lang_core.Counting.Exact.{
  IsExact, live_wraps, live_slots, settled, outcome-IsExact, references_with, properties_with,
}
use am_lang_core.Counting.Edges.{exchange, open_lem}
use am_lang_core.Counting.{
  Shape, by_property, by_reference, Holder, Memory, Elements, owns, decrease,
}

-- What a step leaves, while the counts are exact before and after it: the slots of every other object
-- that is not gone.
pub record Effect (shape : ℕ → Shape) (objects : List ℕ) (x : ℕ) (m : Memory) (r o : ℕ → ℕ)
    (m' : Memory) : Type 0 where
  pub exact : IsExact shape objects m' r o
  pub stays : (q : ℕ) → gone m q ≡ true → gone m' q ≡ true
  pub spared :
      (q : ℕ)
      → has q objects ≡ true
      → gone m' q ≡ false
      → q ≢ x
      → (m'.properties q ≡ m.properties q) × (m'.elements q ≡ m.elements q)
  pub allocated :
      (m'.allocation_count + length m'.freed) % 2 ^ 32
      ≡ (m.allocation_count + length m.freed) % 2 ^ 32

-- A cleared value is owned no longer.
pub cleared_owned : (v : NullableValue) → owns (record v { value = 0 }) ≡ false
unfolding owns
cleared_owned v = ground arith

pub get_or-set {ℓ} :
    {A : Type ℓ} (vs : List A) (i j : ℕ) (v d : A)
    → i < length vs
    → get_or (set vs i v) j d ≡ (if j == i then v else get_or vs j d)
get_or-set [] i j v d h = absurd (omega arith)
get_or-set (x ∷ vs) zero zero v d h = refl
get_or-set (x ∷ vs) zero (suc j) v d h = ground arith
get_or-set (x ∷ vs) (suc i) zero v d h = ground arith
get_or-set (x ∷ vs) (suc i) (suc j) v d h = ground (arith, get_or-set vs i j v d)

-- The first `n` slots hold nothing.
abbrev pub Clean : ℕ → (ℕ → NullableValue) → Type 0
Clean n at = (j : ℕ) → j < n → owns (at j) ≡ false

module _ (shape : ℕ → Shape) (objects : List ℕ) (apart : Distinct objects)
    (no_null : has 0 objects ≡ false) (fuel : ℕ) (r o : ℕ → ℕ) where
  stays_Effect :
      (m : Memory) (o' r' : ℕ → ℕ) (m' : Memory)
      → IsExact shape objects m r' o'
      → Outcome shape objects 0 0 m (live_wraps shape m) (live_slots shape m) r o m'
      → Effect shape objects 0 m r o m'
  stays_Effect m o' r' m' e out =
      let st = outcome-IsExact shape objects apart no_null m r' o' r o m' e out in
      record {
        exact = st.exact;
        stays = st.stays;
        spared = λ q hq d ne. let k = out.frame.spared q hq d in (k.2, k.3);
        allocated = st.allocated;
      }

  -- Giving up a holder, as an effect.
  pub decrease-Effect :
      (holder : Holder) (p : ℕ) (m : Memory)
      → has p objects ≡ true
      → living (gone m) objects < fuel
      → IsExact shape objects m (references_with holder r p) (properties_with holder o p)
      → Effect shape objects 0 m r o (decrease shape fuel holder p m)
  decrease-Effect by_property p m hp few e =
      let out =
        (decrease-IsGood shape objects apart no_null 0 fuel).property p m (live_wraps shape m)
          (live_slots shape m) r o e.list e.sound hp few (λ z. ground arith) in
      stays_Effect m (plus o p) r _ e out
  decrease-Effect by_reference p m hp few e =
      let out =
        (decrease-IsGood shape objects apart no_null 0 fuel).reference p m (live_wraps shape m)
          (live_slots shape m) r o e.list e.sound hp few (λ z. ground arith) in
      stays_Effect m o (plus r p) _ e out

  module _ (obj : ℕ) (h : has obj objects ≡ true) (m : Memory) (e : IsExact shape objects m r o)
      (there : gone m obj ≡ false) where
    -- An object that gives up one slot leaves what it held to a holder outside.
    relieve-IsExact :
        (properties : ℕ → List NullableValue) (elements : ℕ → Elements) (p : ℕ)
        → ((q : ℕ) → q ≢ obj → (properties q ≡ m.properties q) × (elements q ≡ m.elements q))
        → ((x : ℕ)
            → count x
                  (slots_of shape (record m { properties = properties; elements = elements }) obj)
                + (if x == p then 1 else 0)
              ≡ count x (slots_of shape m obj))
        → (has p objects ≡ true)
          × IsExact shape objects
              (record m { properties = properties; elements = elements })
              r
              (plus o p)
    relieve-IsExact properties elements p others counts =
        let m' = record m { properties = properties; elements = elements } in
        let row = slots_of shape m' obj in
        let w = live_wraps shape m in
        let s = live_slots shape m in
        let v = e.sound in
        let all : All (λ x. has x objects ≡ true) (slots_of shape m obj) =
          rw there at ((v.closed obj h).1) in
        let fewer : (x : ℕ) → has x row ≡ true → has x objects ≡ true = λ x held.
          of_All (λ y. has y objects ≡ true) x (slots_of shape m obj) all
            (has_of_count x _ (ground (arith, count_of_has x row held, counts x))) in
        let member : has p objects ≡ true =
          of_All (λ y. has y objects ≡ true) p (slots_of shape m obj) all
            (has_of_count p _ (ground (arith, counts p))) in
        let exchanged =
          exchange shape objects apart no_null obj m w s r o e.list row (plus o p) h
            (All-has (λ y. has y objects ≡ true) row fewer)
            (λ x. rw there (ground (arith, counts x)))
            (open_lem shape objects apart no_null obj m w s r o e.list v) in
        (
          member,
          record {
            list = e.list;
            sound =
                settled shape objects no_null m' w (put s obj row) r (plus o p) e.list
                  (record {
                    chain = exchanged.chain;
                    distinct = exchanged.distinct;
                    listed = exchanged.listed;
                    unlinked = exchanged.unlinked;
                    references = exchanged.references;
                    properties = exchanged.properties;
                    small = exchanged.small;
                    dead = exchanged.dead;
                    alive = exchanged.alive;
                    holds = λ q hq left ne. elim (Bool-cases (q == obj)) [
                      | inl same ↦ rw ((==_iff q obj).0 same) (rw there refl, put_at s obj row)
                      | inr other ↦
                          let k = others q (λ z. ground arith) in
                          let b = exchanged.holds q hq left (λ z. ground arith) in rw (k.0, k.1) b
                    ];
                    closed = exchanged.closed;
                  })
                  (λ q hq d. let ne : q ≢ obj = λ z. ground arith in ground arith);
            freed_once = e.freed_once;
          },
        )

  module _ (obj : ℕ) (h : has obj objects ≡ true) (held : 0 < r obj) where
    pub held_left : (m : Memory) → IsExact shape objects m r o → gone m obj ≡ false
    held_left m e = ground (arith, e.sound.dead obj, e.sound.references obj h)

    -- A round on a slot that holds something: it is cleared, and what it held is given up.
    pub round_Effect :
        (m : Memory) (properties : ℕ → List NullableValue) (elements : ℕ → Elements) (p : ℕ)
        → IsExact shape objects m r o
        → living (gone m) objects < fuel
        → ((q : ℕ) → q ≢ obj → (properties q ≡ m.properties q) × (elements q ≡ m.elements q))
        → ((x : ℕ)
            → count x
                  (slots_of shape (record m { properties = properties; elements = elements }) obj)
                + (if x == p then 1 else 0)
              ≡ count x (slots_of shape m obj))
        → Effect shape objects obj m r o (
            decrease shape fuel by_property p
              (record m { properties = properties; elements = elements }))
          × ((decrease shape fuel by_property p
                  (record m { properties = properties; elements = elements })).properties
                obj
              ≡ properties obj)
          × ((decrease shape fuel by_property p
                  (record m { properties = properties; elements = elements })).elements
                obj
              ≡ elements obj)
    round_Effect m properties elements p e few others counts =
        let there = held_left m e in
        let (member, nulled) =
          relieve-IsExact obj h m e there properties elements p others counts in
        let m1 = record m { properties = properties; elements = elements } in
        let f = decrease-Effect by_property p m1 member few nulled in
        let m2 = decrease shape fuel by_property p m1 in
        let k = f.spared obj h (held_left m2 f.exact) (λ z. ground arith) in
        (
          record {
            exact = f.exact;
            stays = f.stays;
            spared = λ q hq d ne.
                let a = f.spared q hq d (λ z. ground arith) in
                let b = others q ne in (a.0 ∙ b.0, a.1 ∙ b.1);
            allocated = f.allocated;
          },
          k.0,
          k.1,
        )
