-- ===== src/Collection/Held.antt =====
-- What is held, over a memory with exact counts: from outside, by other objects, or by objects outside of
-- the collector's graph.
use am_lang_core.Base.{
  ℕ, zero, suc, ◌+◌, ◌<◌, ◌≤◌, ◌≡◌, refl, ap, ◌∙◌, Bool, true, false, not, ◌&&◌, ◌||◌, List, [],
  ◌∷◌, ◌++◌, arith, All, ◌==◌, inl, inr, Bool-cases, length,
}
use am_lang_core.Counting.Chain.{has, Distinct, IsChain}
use am_lang_core.Counting.Ledger.{of_All, total, total_pos, total_holder, living}
use am_lang_core.Counting.Sound.{gone, slots_of, wraps_of}
use am_lang_core.Counting.Exact.{IsExact, live_wraps, live_slots}
use am_lang_core.Counting.Decrease.{absurd_bool}
use am_lang_core.Counting.{Shape, Memory}
use am_lang_core.Collection.{is_data, first_objects}
use am_lang_core.Collection.Lists.{has-append, total-append, total_split, outside, length-living}
use am_lang_core.Collection.Owners.{holds_of}

-- Immortal, or held by somebody who is no object of the heap.
abbrev pub held_outside : (ℕ → Shape) → (r o : ℕ → ℕ) → ℕ → Bool
held_outside shape r o p = (shape p).immortal || not (r p + o p == 0)

-- That, or an object with a native finalizer, which the collector leaves alone.
abbrev pub anchored : (ℕ → Shape) → (ℕ → Bool) → (r o : ℕ → ℕ) → ℕ → Bool
anchored shape is_string r o p =
    held_outside shape r o p || (is_data (shape p).release && not (is_string p))

abbrev pub IsThere : List ℕ → Memory → ℕ → Type 0
IsThere objects m p = (has p objects ≡ true) × (gone m p ≡ false)

-- From an anchor by what objects hold.
pub data Reached (shape : ℕ → Shape) (objects : List ℕ) (m : Memory) (anchor : ℕ → Bool)
    : ℕ → Type 0 where
  anchor_of : {p : ℕ} → IsThere objects m p → anchor p ≡ true → Reached shape objects m anchor p
  held_by :
      {q p : ℕ}
      → Reached shape objects m anchor q
      → has p (holds_of shape m q) ≡ true
      → Reached shape objects m anchor p

pub first_objects-chain :
    (next prev : ℕ → ℕ) (list : List ℕ) (b p fuel : ℕ)
    → IsChain next prev b p list
    → length list ≤ fuel
    → first_objects fuel next p ≡ list
unfolding first_objects
first_objects-chain next prev [] b p zero c few = refl
first_objects-chain next prev [] b p (suc fuel) c few = ground arith
first_objects-chain next prev (x ∷ list) b p zero c few = absurd (omega arith)
first_objects-chain next prev (x ∷ list) b p (suc fuel) c few =
    let rest = first_objects-chain next prev list x (next x) fuel c.3 (omega arith) in
    let real : (x == 0) ≡ false = ground (arith, c.1) in rw (c.0, real) (ap (λ l. x ∷ l) rest)

module _ (shape : ℕ → Shape) (objects : List ℕ) (apart : Distinct objects)
    (no_null : has 0 objects ≡ false) (m : Memory) (r o : ℕ → ℕ)
    (e : IsExact shape objects m r o) where
  -- What the objects that are left hold.
  abbrev pub live_holds : ℕ → List ℕ
  live_holds q = live_wraps shape m q ++ live_slots shape m q

  pub live_holds_eq : (q : ℕ) → gone m q ≡ false → live_holds q ≡ holds_of shape m q
  live_holds_eq q d = rw d refl

  pub counts_eq :
      (p : ℕ)
      → has p objects ≡ true
      → (shape p).immortal ≡ false
      → m.reference_count p + m.property_reference_count p ≡ total p live_holds objects + r p + o p
  counts_eq p h mortal = ground (
    arith,
    e.sound.references p h,
    e.sound.properties p h mortal,
    total-append p (live_wraps shape m) (live_slots shape m) objects,
  )

  pub anchor_left :
      (p : ℕ) → has p objects ≡ true → held_outside shape r o p ≡ true → gone m p ≡ false
  anchor_left p h held = elim (Bool-cases (gone m p)) [
    | inr d ↦ d
    | inl d ↦
        let none = e.sound.dead p h d in
        let refs = e.sound.references p h in
        elim (Bool-cases (shape p).immortal) [
          | inl forever ↦ absurd (ground arith)
          | inr mortal ↦ let sum = counts_eq p h mortal in absurd (ground arith)
        ]
  ]

  -- What a listed object holds is there.
  pub held_there :
      (q p : ℕ) → IsThere objects m q → has p (holds_of shape m q) ≡ true → IsThere objects m p
  held_there q p t h =
      let split = has-append p (wraps_of shape q) (slots_of shape m q) in
      let closed = e.sound.closed q t.0 in
      let wraps : All (λ x. has x objects ≡ true) (wraps_of shape q) = rw t.1 at closed.0 in
      let slots : All (λ x. has x objects ≡ true) (slots_of shape m q) = rw t.1 at closed.1 in
      let member : has p objects ≡ true = elim (Bool-cases (has p (wraps_of shape q))) [
        | inl w ↦ of_All (λ x. has x objects ≡ true) p (wraps_of shape q) wraps w
        | inr w ↦ of_All (λ x. has x objects ≡ true) p (slots_of shape m q) slots (ground arith)
      ] in
      let among : has p (live_holds q) ≡ true = ap (has p) (live_holds_eq q t.1) ∙ h in
      let pos = total_pos p q live_holds objects t.0 among in
      (
        member,
        elim (Bool-cases (gone m p)) [
          | inr d ↦ d
          | inl d ↦
              let none = e.sound.dead p member d in
              let refs = e.sound.references p member in
              elim (Bool-cases (shape p).immortal) [
                | inl forever ↦ absurd (ground arith)
                | inr mortal ↦ let sum = counts_eq p member mortal in absurd (omega arith)
              ]
        ],
      )

  pub Reached-there :
      {anchor : ℕ → Bool} {p : ℕ} → Reached shape objects m anchor p → IsThere objects m p
  Reached-there (anchor_of t a) = t
  Reached-there (held_by {q} {p} from h) = held_there q p (Reached-there from) h

  -- Members of the property-referenced list are there.
  pub listed_there : (p : ℕ) → has p e.list ≡ true → IsThere objects m p
  listed_there p h =
      let l = e.sound.listed p in
      let member : has p objects ≡ true = ground arith in
      (
        member,
        elim (Bool-cases (gone m p)) [
          | inr d ↦ d
          | inl d ↦ let none = e.sound.dead p member d in absurd (ground arith)
        ],
      )

  pub listed_null : has 0 e.list ≡ false
  listed_null = ground (arith, e.sound.listed 0)

  pub length-listed : length e.list ≤ living (gone m) objects
  length-listed =
      length-living (gone m) objects e.list apart e.sound.distinct (λ q h. (listed_there q h).0)
        (λ q h. (listed_there q h).1)

  module _ (os : List ℕ) (once : Distinct os)
      (good : (q : ℕ) → has q os ≡ true → IsThere objects m q)
      (listed : (q : ℕ) → has q e.list ≡ true → has q os ≡ true)
      (linked : (q p : ℕ)
        → has q os ≡ true
        → has p (wraps_of shape q) ≡ true
        → (shape p).immortal ≡ false
        → has p os ≡ true)
      (shallow : (q p : ℕ) → has p (wraps_of shape q) ≡ true → wraps_of shape p ≡ []) where
    -- The holders of an object: those in the graph, the other objects, and outside.
    pub counts_split :
        (p : ℕ)
        → has p objects ≡ true
        → (shape p).immortal ≡ false
        → m.reference_count p + m.property_reference_count p
          ≡ total p live_holds os + total p (outside os live_holds) objects + (r p + o p)
    counts_split p h mortal = omega (
      arith,
      counts_eq p h mortal,
      total_split p live_holds objects os apart once (λ q x. (good q x).0),
    )

    -- An object that is not in the graph has references only.
    unlisted_references :
        (p : ℕ)
        → IsThere objects m p
        → has p os ≡ false
        → (shape p).immortal ≡ false
        → 0 < total p (live_wraps shape m) objects + r p
    unlisted_references p t new mortal =
        let refs = e.sound.references p t.0 in
        let alive = e.sound.alive p t.0 t.1 in
        let l = e.sound.listed p in
        elim (Bool-cases (has p e.list)) [
          | inl h ↦ absurd_bool (has p os) new (listed p h)
          | inr h ↦ ground arith
        ]

    holder_wraps :
        (p q : ℕ)
        → has p (live_wraps shape m q) ≡ true
        → (gone m q ≡ false) × (has p (wraps_of shape q) ≡ true)
    holder_wraps p q h = elim (Bool-cases (gone m q)) [
      | inl d ↦ absurd_bool (has p []) refl (rw d at h)
      | inr d ↦ (d, rw d at h)
    ]

    -- An object that is left and not in the graph is held from outside, or wrapped by such an object.
    pub outside_Reached :
        (p : ℕ)
        → IsThere objects m p
        → has p os ≡ false
        → Reached shape objects m (held_outside shape r o) p
    outside_Reached p t new = elim (Bool-cases (held_outside shape r o p)) [
      | inl held ↦ anchor_of t held
      | inr free ↦
          let mortal : (shape p).immortal ≡ false = ground arith in
          let pos = unlisted_references p t new mortal in
          let (q, hq, w) = total_holder p (live_wraps shape m) objects (ground arith) in
          let (left, wraps) = holder_wraps p q w in
          let away : has q os ≡ false = elim (Bool-cases (has q os)) [
            | inl x ↦ absurd_bool (has p os) new (linked q p x wraps mortal)
            | inr x ↦ x
          ] in
          let holds : has p (holds_of shape m q) ≡ true =
            has-append p (wraps_of shape q) (slots_of shape m q) ∙ rw wraps refl in
          elim (Bool-cases (held_outside shape r o q)) [
            | inl held ↦ held_by (anchor_of (hq, left) held) holds
            | inr free' ↦
                let pos' = unlisted_references q (hq, left) away (ground arith) in
                let (x, hx, w') = total_holder q (live_wraps shape m) objects (ground arith) in
                let none = shallow x q (holder_wraps q x w').1 in
                absurd_bool (has p []) refl (rw none at wraps)
          ]
    ]
