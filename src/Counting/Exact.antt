-- ===== src/Counting/Exact.antt =====
-- Exact counts, as the heap has them whenever no release is under way, and what they mean.
use am_lang_core.Base.{
  ℕ, ◌+◌, ◌%◌, ◌^◌, ◌<◌, ◌≡◌, ◌≢◌, refl, sym, ◌∙◌, true, false, List, [], arith, length,
  if◌then◌else◌, Bool-cases, inl, inr,
}
use am_lang_core.Counting.Chain.{has, Distinct}
use am_lang_core.Counting.Ledger.{count, total_same, living}
use am_lang_core.Counting.Sound.{gone, plus, IsSound, slots_of, wraps_of}
use am_lang_core.Counting.Frame.{bit, Outcome}
use am_lang_core.Counting.Decrease.{decrease-IsGood}
use am_lang_core.Counting.{Shape, Holder, by_property, by_reference, Memory, decrease}

-- The holders from outside, with the one that is given up.
abbrev pub references_with : Holder → (ℕ → ℕ) → ℕ → ℕ → ℕ
references_with by_reference r p = plus r p
references_with by_property r p = r

abbrev pub properties_with : Holder → (ℕ → ℕ) → ℕ → ℕ → ℕ
properties_with by_reference o p = o
properties_with by_property o p = plus o p

module _ (shape : ℕ → Shape) where
  -- What the objects that are not gone hold.
  abbrev pub live_wraps : Memory → ℕ → List ℕ
  live_wraps m q = if gone m q then [] else wraps_of shape q

  abbrev pub live_slots : Memory → ℕ → List ℕ
  live_slots m q = if gone m q then [] else slots_of shape m q

  -- The counts of every object are those of its holders: the objects that are not gone, and
  -- outside of the heap `r` references and `o` property holders. What is gone was freed once.
  pub record IsExact (objects : List ℕ) (m : Memory) (r o : ℕ → ℕ) : Type 0 where
    pub list : List ℕ
    pub sound : IsSound shape objects 0 m (live_wraps m) (live_slots m) r o list
    pub freed_once : (q : ℕ) → has q objects ≡ true → count q m.freed ≡ bit (gone m q)

  -- Exact counts after an operation: what was gone stays so, and the number of allocated objects
  -- goes down by the number of those that are freed.
  pub record Settles (objects : List ℕ) (m : Memory) (r o : ℕ → ℕ) (m' : Memory) : Type 0 where
    pub exact : IsExact objects m' r o
    pub stays : (q : ℕ) → gone m q ≡ true → gone m' q ≡ true
    pub allocated :
        (m'.allocation_count + length m'.freed) % 2 ^ 32
        ≡ (m.allocation_count + length m.freed) % 2 ^ 32

  pub settled :
      (objects : List ℕ) (no_null : has 0 objects ≡ false) (m : Memory) (w s : ℕ → List ℕ)
      (r o : ℕ → ℕ) (list : List ℕ)
      → IsSound shape objects 0 m w s r o list
      → ((q : ℕ) → has q objects ≡ true → gone m q ≡ true → (w q ≡ []) × (s q ≡ []))
      → IsSound shape objects 0 m (live_wraps m) (live_slots m) r o list
  settled objects no_null m w s r o list v released =
      let real : (q : ℕ) → has q objects ≡ true → q ≢ 0 = λ q h z. ground arith in
      let wraps : (q : ℕ) → has q objects ≡ true → w q ≡ live_wraps m q =
        λ q h. ground (arith, v.holds q h, released q h, real q h) in
      let slots : (q : ℕ) → has q objects ≡ true → s q ≡ live_slots m q =
        λ q h. ground (arith, v.holds q h, released q h, real q h) in
      record {
        chain = v.chain;
        distinct = v.distinct;
        listed = v.listed;
        unlinked = v.unlinked;
        references =
            λ p h. rw (sym (total_same p w (live_wraps m) objects wraps)) (v.references p h);
        properties = λ p h mortal.
            rw (sym (total_same p s (live_slots m) objects slots)) (v.properties p h mortal);
        small = v.small;
        dead = v.dead;
        alive = v.alive;
        holds = λ q h d ne. (rw d refl, rw d refl);
        closed =
            λ q h. (rw (sym (wraps q h)) (v.closed q h).0, rw (sym (slots q h)) (v.closed q h).1);
      }

  module _ (objects : List ℕ) (apart : Distinct objects) (no_null : has 0 objects ≡ false)
      (m : Memory) (r o : ℕ → ℕ) where
    pub outcome-IsExact :
        (r' o' : ℕ → ℕ) (m' : Memory)
        → (before : IsExact objects m r o)
        → Outcome shape objects 0 0 m (live_wraps m) (live_slots m) r' o' m'
        → Settles objects m r' o' m'
    outcome-IsExact r' o' m' before out =
        let f = out.frame in
        record {
          exact = record {
            list = out.list;
            sound = settled objects no_null m' out.wraps out.slots r' o' out.list out.sound λ q h d.
                elim (Bool-cases (gone m q)) [
                  | inl gone_before ↦
                      let k = f.kept q h gone_before (λ z. ground arith) in
                      (k.0 ∙ rw gone_before refl, k.1 ∙ rw gone_before refl)
                  | inr new ↦ f.emptied q h new d
                ];
            freed_once = λ q h. ground (arith, f.once q, before.freed_once q h);
          };
          stays = f.stays;
          allocated = f.allocated;
        }

  -- Giving up one holder of an object, a reference or a property holder, with more fuel than there
  -- are objects left: the counts are exact again, whatever it set off, what was gone stays gone, and
  -- the number of allocated objects goes down by the number of those that are freed.
  pub decrease-IsExact :
      (holder : Holder) (objects : List ℕ) (fuel p : ℕ) (m : Memory) (r o : ℕ → ℕ)
      → Distinct objects
      → has 0 objects ≡ false
      → has p objects ≡ true
      → living (gone m) objects < fuel
      → IsExact objects m (references_with holder r p) (properties_with holder o p)
      → Settles objects m r o (decrease shape fuel holder p m)
  decrease-IsExact by_property objects fuel p m r o apart no_null h few e =
      outcome-IsExact objects apart no_null m r (plus o p) r o _ e (
        (decrease-IsGood shape objects apart no_null 0 fuel).property p m (live_wraps m)
          (live_slots m) r o e.list e.sound h few (λ z. ground arith))
  decrease-IsExact by_reference objects fuel p m r o apart no_null h few e =
      outcome-IsExact objects apart no_null m (plus r p) o r o _ e (
        (decrease-IsGood shape objects apart no_null 0 fuel).reference p m (live_wraps m)
          (live_slots m) r o e.list e.sound h few (λ z. ground arith))
