-- ===== src/Counting/Acquire.antt =====
-- `__increase_property_reference_count` and `__increase_reference_count` of
-- src/native-c/libc/core_inline_functions.h keep the counts sound.
use am_lang_core.Base.{
  ℕ, ◌+◌, ◌^◌, ◌<◌, ◌≡◌, ◌≢◌, refl, true, false, List, ◌∷◌, arith, ◌==◌, Bool-cases, inl, inr,
}
use am_lang_core.Counting.Chain.{has, Distinct, push_lem, head_in}
use am_lang_core.Counting.Sound.{gone, plus, IsSound}
use am_lang_core.Counting.Frame.{Outcome}
use am_lang_core.Counting.Decrease.{quiet}
use am_lang_core.Counting.{
  Shape, Memory, link_first, increase_property_reference_count, increase_reference_count,
}

module _ (shape : ℕ → Shape) (objects : List ℕ) (apart : Distinct objects)
    (no_null : has 0 objects ≡ false) (busy : ℕ) (m : Memory) (w s : ℕ → List ℕ) (r o : ℕ → ℕ)
    (list : List ℕ) where
  -- Taking a property holder of an object that is not gone.
  pub acquire_property :
      (p : ℕ)
      → has p objects ≡ true
      → gone m p ≡ false
      → ((shape p).immortal ≡ false → m.property_reference_count p + 1 < 2 ^ 32)
      → (has busy objects ≡ true → 0 < r busy)
      → IsSound shape objects busy m w s r o list
      → Outcome shape objects busy 0 m w s r
          (plus o p)
          (increase_property_reference_count shape p m)
  unfolding increase_property_reference_count link_first
  acquire_property p hp there room alive v = elim (Bool-cases (shape p).immortal) [
    | inl immortal ↦ rw immortal (
        quiet shape objects apart no_null busy p hp r (plus o p) alive m m w s list refl refl refl
          refl refl
          (record {
            chain = v.chain;
            distinct = v.distinct;
            listed = v.listed;
            unlinked = v.unlinked;
            references = v.references;
            properties = λ x h mortal. ground (arith, v.properties x h mortal);
            small = v.small;
            dead = v.dead;
            alive = v.alive;
            holds = v.holds;
            closed = v.closed;
          }))
    | inr mortal ↦
        let small = room mortal in
        elim (Bool-cases (m.property_reference_count p == 0)) [
          | inl first ↦
              let out : has p list ≡ false = ground (arith, v.listed p) in
              let real : p ≢ 0 = λ z. ground arith in
              let chain =
                push_lem m.next m.prev p m.first_object list v.chain v.distinct out real
                  (v.unlinked p hp out) in
              rw (mortal, first)
                (quiet shape objects apart no_null busy p hp r (plus o p) alive m _ w s (p ∷ list)
                  refl refl refl refl refl
                  (record {
                    chain = chain;
                    distinct = (out, v.distinct);
                    listed = λ x. ground (arith, v.listed x);
                    unlinked = λ x h out'. ground (
                      arith,
                      v.unlinked x h,
                      head_in m.next m.prev 0 m.first_object list v.chain,
                    );
                    references = v.references;
                    properties = λ x h mortal'. ground (arith, v.properties x h mortal');
                    small = λ x h. ground (arith, v.small x h);
                    dead = λ x h d. ground (arith, v.dead x h);
                    alive = λ x h d. ground (arith, v.alive x h);
                    holds = v.holds;
                    closed = v.closed;
                  }))
          | inr more ↦
              rw (mortal, more)
                (quiet shape objects apart no_null busy p hp r (plus o p) alive m _ w s list refl
                  refl refl refl refl
                  (record {
                    chain = v.chain;
                    distinct = v.distinct;
                    listed = λ x. ground (arith, v.listed x);
                    unlinked = v.unlinked;
                    references = v.references;
                    properties = λ x h mortal'. ground (arith, v.properties x h mortal');
                    small = λ x h. ground (arith, v.small x h);
                    dead = λ x h d. ground (arith, v.dead x h);
                    alive = λ x h d. ground (arith, v.alive x h);
                    holds = v.holds;
                    closed = v.closed;
                  }))
        ]
  ]

  -- Taking a reference of an object that is not gone.
  pub acquire_reference :
      (p : ℕ)
      → has p objects ≡ true
      → gone m p ≡ false
      → m.reference_count p + 1 < 2 ^ 32
      → IsSound shape objects busy m w s r o list
      → IsSound shape objects busy (increase_reference_count p m) w s (plus r p) o list
  unfolding increase_reference_count
  acquire_reference p hp there room v = record {
    chain = v.chain;
    distinct = v.distinct;
    listed = v.listed;
    unlinked = v.unlinked;
    references = λ x h. ground (arith, v.references x h);
    properties = v.properties;
    small = λ x h. ground (arith, v.small x h);
    dead = λ x h d. ground (arith, v.dead x h);
    alive = λ x h d. ground (arith, v.alive x h);
    holds = v.holds;
    closed = v.closed;
  }
