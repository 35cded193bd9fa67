-- ===== src/Counting/Reclaimed.antt =====
-- The end of a collection, src/native-c/libc/Am/Lang/GC.c: the counts stay exact, and what nobody but
-- the reclaimed objects holds is freed.
use mathlib.Core.Path.{fun_ext}
use am_lang_core.Base.{
  ℕ, ◌+◌, ◌%◌, ◌^◌, ◌<◌, ◌≡◌, refl, ap, ◌∙◌, Bool, true, false, List, [], ◌∷◌, arith, length, ◌==◌,
  if◌then◌else◌, Bool-cases, ◌⊎◌, inl, inr, ==_iff,
}
use am_lang_core.Counting.Chain.{has, Distinct}
use am_lang_core.Counting.Ledger.{
  count, count_of_has, count_zero, total, total_zero, total_holder, living, living_le,
}
use am_lang_core.Counting.Sound.{gone, plus, slots_of, wraps_of}
use am_lang_core.Counting.Exact.{IsExact, live_wraps, live_slots}
use am_lang_core.Counting.Acquire.{acquire_reference}
use am_lang_core.Counting.Decrease.{absurd_bool}
use am_lang_core.Counting.Clear.{decrease-Effect}
use am_lang_core.Counting.Cleared.{clear_owned_edges_lem, left_before}
use am_lang_core.Counting.{
  Shape, by_reference, Memory, decrease, is_class_type, increase_reference_count,
}
use am_lang_core.Counting.Reclaim.{
  clear_owned_edges, is_array, pin_all, clear_all, release_all, reclaim,
}

-- The references of outside with the pins.
abbrev pub pinned : (ℕ → ℕ) → List ℕ → ℕ → ℕ
pinned r ps q = r q + count q ps

pinned-cons : (r : ℕ → ℕ) (p : ℕ) (ps : List ℕ) → pinned r (p ∷ ps) ≡ plus (pinned r ps) p
pinned-cons r p ps = fun_ext λ q. ground arith

pinned-plus : (r : ℕ → ℕ) (p : ℕ) (ps : List ℕ) → pinned r (p ∷ ps) ≡ pinned (plus r p) ps
pinned-plus r p ps = fun_ext λ q. ground arith

pinned-nil : (r : ℕ → ℕ) → pinned r [] ≡ r
pinned-nil r = fun_ext λ q. omega arith

if_nil : (b : Bool) → ◌≡◌ {A = List ℕ} (if b then [] else []) []
if_nil true = refl
if_nil false = refl

module _ (shape : ℕ → Shape) (objects : List ℕ) (apart : Distinct objects)
    (no_null : has 0 objects ≡ false) where
  -- Taking a reference changes nothing but the count.
  retain-IsExact :
      (p : ℕ) (m : Memory) (r o : ℕ → ℕ)
      → IsExact shape objects m r o
      → has p objects ≡ true
      → gone m p ≡ false
      → m.reference_count p + 1 < 2 ^ 32
      → IsExact shape objects (increase_reference_count p m) (plus r p) o
  unfolding increase_reference_count
  retain-IsExact p m r o e hp there room = record {
    list = e.list;
    sound =
        acquire_reference shape objects apart no_null 0 m (live_wraps shape m) (live_slots shape m)
          r o e.list p hp there room e.sound;
    freed_once = e.freed_once;
  }

  -- The counts with a pin on each of the objects.
  record Pinned (ps : List ℕ) (m : Memory) (r o : ℕ → ℕ) (m' : Memory) : Type 0 where
    exact : IsExact shape objects m' (pinned r ps) o
    same_gone : (q : ℕ) → gone m' q ≡ gone m q
    same_slots : (q : ℕ) → slots_of shape m' q ≡ slots_of shape m q
    same_count : (m'.allocation_count ≡ m.allocation_count) × (m'.freed ≡ m.freed)

  pin_all-Pinned :
      (ps : List ℕ) (m : Memory) (r o : ℕ → ℕ)
      → IsExact shape objects m r o
      → Distinct ps
      → ((p : ℕ)
          → has p ps ≡ true
          → (has p objects ≡ true) × (gone m p ≡ false) × (m.reference_count p + 1 < 2 ^ 32))
      → Pinned ps m r o (pin_all ps m)
  unfolding pin_all increase_reference_count
  pin_all-Pinned [] m r o e d each = record {
    exact = rw (pinned-nil r) e;
    same_gone = λ q. refl;
    same_slots = λ q. refl;
    same_count = (refl, refl);
  }
  pin_all-Pinned (p ∷ ps) m r o e d each =
      let (hp, there, room) = each p (ground arith) in
      let m1 = increase_reference_count p m in
      let rest =
        pin_all-Pinned ps m1 (plus r p) o (retain-IsExact p m r o e hp there room) d.1
          (λ q hq. let (a, b, c) = each q (ground arith) in (a, b, ground arith)) in
      record {
        exact = rw (pinned-plus r p ps) rest.exact;
        same_gone = rest.same_gone;
        same_slots = rest.same_slots;
        same_count = rest.same_count;
      }

  -- Exact counts after an operation, with what the objects that are left hold in their slots.
  record After (m : Memory) (r o : ℕ → ℕ) (keeps : ℕ → List ℕ) (m' : Memory) : Type 0 where
    exact : IsExact shape objects m' r o
    stays : (q : ℕ) → gone m q ≡ true → gone m' q ≡ true
    allocated :
        (m'.allocation_count + length m'.freed) % 2 ^ 32
        ≡ (m.allocation_count + length m.freed) % 2 ^ 32
    slots : (q : ℕ) → has q objects ≡ true → gone m' q ≡ false → slots_of shape m' q ≡ keeps q

  module _ (fuel : ℕ) (r o : ℕ → ℕ) where
    few_left :
        (m m' : Memory)
        → ((q : ℕ) → gone m q ≡ true → gone m' q ≡ true)
        → living (gone m) objects < fuel
        → living (gone m') objects < fuel
    few_left m m' stays few = omega (arith, living_le (gone m) (gone m') objects stays)

    clear_all-After :
        (ps : List ℕ) (m : Memory)
        → IsExact shape objects m r o
        → living (gone m) objects < fuel
        → ((p : ℕ)
            → has p ps ≡ true
            → (has p objects ≡ true)
              × (0 < r p)
              × (is_array (shape p).release ≡ true → is_class_type (shape p).type_of_class ≡ true))
        → After m r o (λ q. if has q ps then [] else slots_of shape m q) (clear_all shape fuel ps m)
    unfolding clear_all
    clear_all-After [] m e few each = record {
      exact = e;
      stays = λ q d. d;
      allocated = refl;
      slots = λ q h d. refl;
    }
    clear_all-After (p ∷ ps) m e few each =
        let (hp, held, tidy) = each p (ground arith) in
        let m1 = clear_owned_edges shape fuel p m in
        let (f, none) =
          clear_owned_edges_lem shape objects apart no_null fuel r o p hp held m e few tidy in
        let rest =
          clear_all-After ps m1 f.exact (few_left m m1 f.stays few)
            (λ q hq. each q (ground arith)) in
        let m' = clear_all shape fuel ps m1 in
        record {
          exact = rest.exact;
          stays = λ q d. rest.stays q (f.stays q d);
          allocated = rest.allocated ∙ f.allocated;
          slots = λ q h d.
              let after = rest.slots q h d in
              elim (Bool-cases (q == p)) [
                | inl e ↦
                    let same = (==_iff q p).0 e in
                    let none' : slots_of shape m1 q ≡ [] = rw same none in
                    rw e (after ∙ ap (λ l. if has q ps then [] else l) none' ∙ if_nil (has q ps))
                | inr e ↦
                    let left = left_before (gone m1 q) (gone m' q) (rest.stays q) d in
                    let k = f.spared q h left (λ z. ground arith) in
                    let same : slots_of shape m1 q ≡ slots_of shape m q = rw (k.0, k.1) refl in
                    rw e (after ∙ ap (λ l. if has q ps then [] else l) same)
              ];
        }

    release_all-After :
        (ps : List ℕ) (m : Memory)
        → IsExact shape objects m (pinned r ps) o
        → living (gone m) objects < fuel
        → ((p : ℕ) → has p ps ≡ true → has p objects ≡ true)
        → After m r o (slots_of shape m) (release_all shape fuel ps m)
    unfolding release_all
    release_all-After [] m e few each = record {
      exact = rw (pinned-nil r) at e;
      stays = λ q d. d;
      allocated = refl;
      slots = λ q h d. refl;
    }
    release_all-After (p ∷ ps) m e few each =
        let e' : IsExact shape objects m (plus (pinned r ps) p) o = rw (pinned-cons r p ps) at e in
        let m1 = decrease shape fuel by_reference p m in
        let f =
          decrease-Effect shape objects apart no_null fuel (pinned r ps) o by_reference p m
            (each p (ground arith)) few e' in
        let rest =
          release_all-After ps m1 f.exact (few_left m m1 f.stays few)
            (λ q hq. each q (ground arith)) in
        let m' = release_all shape fuel ps m1 in
        record {
          exact = rest.exact;
          stays = λ q d. rest.stays q (f.stays q d);
          allocated = rest.allocated ∙ f.allocated;
          slots = λ q h d.
              let left = left_before (gone m1 q) (gone m' q) (rest.stays q) d in
              let k = f.spared q h left (λ z. ground arith) in
              rest.slots q h d ∙ rw (k.0, k.1) refl;
        }

  -- What a collection does.
  pub record Reclaims (ps : List ℕ) (m : Memory) (r o : ℕ → ℕ) (m' : Memory) : Type 0 where
    pub exact : IsExact shape objects m' r o
    pub freed : (p : ℕ) → has p ps ≡ true → gone m' p ≡ true
    pub stays : (q : ℕ) → gone m q ≡ true → gone m' q ≡ true
    pub slots :
        (q : ℕ)
        → has q objects ≡ true
        → gone m' q ≡ false
        → slots_of shape m' q ≡ slots_of shape m q
    pub allocated :
        (m'.allocation_count + length m'.freed) % 2 ^ 32
        ≡ (m.allocation_count + length m.freed) % 2 ^ 32

  -- The objects to reclaim: each is there once and mortal, nothing outside holds it, and of the
  -- objects only those to reclaim. What an interface wrapper wraps is no wrapper.
  pub record IsGarbage (ps : List ℕ) (m : Memory) (r o : ℕ → ℕ) : Type 0 where
    pub once : Distinct ps
    pub each :
        (p : ℕ)
        → has p ps ≡ true
        → (has p objects ≡ true) × (gone m p ≡ false) × (m.reference_count p + 1 < 2 ^ 32)
    pub unheld : (p : ℕ) → has p ps ≡ true → (r p ≡ 0) × (o p ≡ 0) × ((shape p).immortal ≡ false)
    pub tidy :
        (p : ℕ)
        → has p ps ≡ true
        → is_array (shape p).release ≡ true
        → is_class_type (shape p).type_of_class ≡ true
    pub closed :
        (q p : ℕ)
        → has q objects ≡ true
        → gone m q ≡ false
        → has p ps ≡ true
        → (has p (slots_of shape m q) ≡ true) ⊎ (has p (wraps_of shape q) ≡ true)
        → has q ps ≡ true
    pub shallow : (q p : ℕ) → has p (wraps_of shape q) ≡ true → wraps_of shape p ≡ []

  module _ (ps : List ℕ) (m : Memory) (r o : ℕ → ℕ) (fuel : ℕ) (garbage : IsGarbage ps m r o) where
    -- Once nothing but wrappers is left to hold it, an object that is left has a wrapper.
    wrapper_of :
        (m' : Memory)
        → IsExact shape objects m' r o
        → ((q : ℕ) → gone m q ≡ true → gone m' q ≡ true)
        → ((q : ℕ)
            → has q objects ≡ true
            → gone m' q ≡ false
            → slots_of shape m' q ≡ (if has q ps then [] else slots_of shape m q))
        → (p : ℕ) → has p ps ≡ true
        → gone m' p ≡ false
        → (q : ℕ) × (has p (wraps_of shape q) ≡ true) × (has q ps ≡ true) × (gone m' q ≡ false)
    wrapper_of m' e stays slots p hp left =
        let (member, _, _) = garbage.each p hp in
        let (no_references, no_properties, mortal) = garbage.unheld p hp in
        let before : (q : ℕ) → gone m' q ≡ false → gone m q ≡ false =
          λ q d. left_before (gone m q) (gone m' q) (stays q) d in
        let no_slots : total p (live_slots shape m') objects ≡ 0 =
          total_zero p (live_slots shape m') objects λ q hq. elim (Bool-cases (gone m' q)) [
            | inl d ↦ rw d refl
            | inr d ↦
                rw (d, slots q hq d)
                  (elim (Bool-cases (has q ps)) [
                    | inl k ↦ rw k refl
                    | inr k ↦ elim (Bool-cases (has p (slots_of shape m q))) [
                      | inl holds ↦
                          absurd_bool (has q ps) k
                            (garbage.closed q p hq (before q d) hp (inl holds))
                      | inr free ↦ rw k (count_zero p (slots_of shape m q) free)
                    ]
                  ])
          ] in
        let held : 0 < total p (live_wraps shape m') objects = ground (
          arith,
          e.sound.alive p member left,
          e.sound.references p member,
          e.sound.properties p member mortal,
        ) in
        let (q, hq, holds) = total_holder p (live_wraps shape m') objects held in
        elim (Bool-cases (gone m' q)) [
          | inl d ↦ absurd_bool (has p []) refl (rw d at holds)
          | inr d ↦
              let wrapped : has p (wraps_of shape q) ≡ true = rw d at holds in
              (q, wrapped, garbage.closed q p hq (before q d) hp (inr wrapped), d)
        ]

    -- Reclaiming garbage while the counts are exact, with more fuel than there are objects left, frees
    -- every object to reclaim. The counts are exact afterwards, what was gone stays gone, the objects that
    -- are left hold in their slots what they held, and the number of allocated objects goes down by one
    -- for each object that is freed.
    pub reclaim-Reclaims :
        IsExact shape objects m r o
        → living (gone m) objects < fuel
        → Reclaims ps m r o (reclaim shape fuel ps m)
    unfolding reclaim
    reclaim-Reclaims e few =
        let pins = pin_all-Pinned ps m r o e garbage.once garbage.each in
        let m1 = pin_all ps m in
        let few1 : living (gone m1) objects < fuel =
          omega (arith, few_left fuel r o m m1 (λ q d. rw (pins.same_gone q) d) few) in
        let clears = clear_all-After fuel (pinned r ps) o ps m1 pins.exact few1 (λ p hp.
          ((garbage.each p hp).0, omega (arith, count_of_has p ps hp), garbage.tidy p hp)) in
        let m2 = clear_all shape fuel ps m1 in
        let few2 = few_left fuel r o m1 m2 clears.stays few1 in
        let ends =
          release_all-After fuel r o ps m2 clears.exact few2 (λ p hp. (garbage.each p hp).0) in
        let m' = release_all shape fuel ps m2 in
        let stays : (q : ℕ) → gone m q ≡ true → gone m' q ≡ true =
          λ q d. ends.stays q (clears.stays q (rw (pins.same_gone q) d)) in
        let slots : (q : ℕ)
            → has q objects ≡ true
            → gone m' q ≡ false
            → slots_of shape m' q ≡ (if has q ps then [] else slots_of shape m q) =
          λ q h d.
            ends.slots q h d
            ∙ clears.slots q h (left_before (gone m2 q) (gone m' q) (ends.stays q) d)
            ∙ ap (λ l. if has q ps then [] else l) (pins.same_slots q) in
        let freed : (p : ℕ) → has p ps ≡ true → gone m' p ≡ true = λ p hp.
          elim (Bool-cases (gone m' p)) [
            | inl d ↦ d
            | inr d ↦
                let (q, wraps, hq, left) = wrapper_of m' ends.exact stays slots p hp d in
                let (x, wraps', _, _) = wrapper_of m' ends.exact stays slots q hq left in
                absurd_bool (has p []) refl (rw (garbage.shallow x q wraps') at wraps)
          ] in
        record {
          exact = ends.exact;
          freed = freed;
          stays = stays;
          slots = λ q h d. elim (Bool-cases (has q ps)) [
            | inl k ↦ absurd_bool (gone m' q) d (freed q k)
            | inr k ↦ rw k at (slots q h d)
          ];
          allocated =
              ends.allocated ∙ clears.allocated ∙ rw (pins.same_count.0, pins.same_count.1) refl;
        }
