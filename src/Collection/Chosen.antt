-- ===== src/Collection/Chosen.antt =====
-- What the analysis chooses to reclaim is garbage, and what it keeps is reached.
use am_lang_core.Base.{
  ℕ, ◌+◌, ◌^◌, ◌<◌, ◌≤◌, ◌≡◌, ◌≢◌, ◌⊎◌, ◌↔◌, refl, sym, ap, ◌∙◌, Bool, true, false, List, [], ◌∷◌,
  arith, ◌==◌, inl, inr, Bool-cases, ==_iff, length, get_or,
}
use am_lang_core.Collector.Table.{position}
use am_lang_core.Collector.Marking.{Occurs, Reachable, root, owned_by}
use am_lang_core.Collector.Collect.{owned_edges}
use am_lang_core.Collector.Collect.Weigh.{is_pinned, owners_from}
use am_lang_core.Counting.Chain.{has, Distinct}
use am_lang_core.Counting.Ledger.{
  count, count_of_has, has_of_count, total, total_pos, total_holder, living,
}
use am_lang_core.Counting.Sound.{gone, slots_of, wraps_of}
use am_lang_core.Counting.Exact.{IsExact}
use am_lang_core.Counting.Decrease.{absurd_bool}
use am_lang_core.Counting.{Shape, Memory, is_class_type}
use am_lang_core.Counting.Reclaim.{is_array}
use am_lang_core.Counting.Reclaimed.{IsGarbage}
use am_lang_core.Collection.{object_of}
use am_lang_core.Collection.Lists.{
  has-append, has-get_or, place_of, position_at, get_or-position, outside, total_counts,
}
use am_lang_core.Collection.Owners.{holds_of, count-owned_edges, owners_from-total}
use am_lang_core.Collection.Held.{
  held_outside, anchored, IsThere, Reached, anchor_of, held_by, live_holds, live_holds_eq,
  held_there, counts_split, outside_Reached,
}

pub Occurs-has : (p : ℕ) (l : List ℕ) → Occurs p l → has p l ≡ true
Occurs-has p [] h = absurd h
Occurs-has p (q ∷ l) (inl same) = ground arith
Occurs-has p (q ∷ l) (inr later) = ground (arith, Occurs-has p l later)

pub has-Occurs : (p : ℕ) (l : List ℕ) → has p l ≡ true → Occurs p l
has-Occurs p [] h = cc
has-Occurs p (q ∷ l) h = elim (Bool-cases (p == q)) [
  | inl same ↦ inl ((==_iff p q).0 same)
  | inr other ↦ inr (has-Occurs p l (ground arith))
]

-- What the classes and the counts must be like when a collection starts: the array class is a class,
-- wrappers do not wrap wrappers, a count has room for a pin in an `int`, and the objects that are left
-- are at most as many as the allocation count says.
pub record IsReady (shape : ℕ → Shape) (objects : List ℕ) (m : Memory) : Type 0 where
  pub tidy :
      (p : ℕ) → is_array (shape p).release ≡ true → is_class_type (shape p).type_of_class ≡ true
  pub shallow : (q p : ℕ) → has p (wraps_of shape q) ≡ true → wraps_of shape p ≡ []
  pub room :
      (p : ℕ)
      → IsThere objects m p
      → (m.reference_count p + 1 < 2 ^ 31) × (m.property_reference_count p < 2 ^ 31)
  pub counted : living (gone m) objects ≤ m.allocation_count
  pub small : m.allocation_count < 2 ^ 63

module _ (shape : ℕ → Shape) (is_string : ℕ → Bool) (objects : List ℕ) (apart : Distinct objects)
    (no_null : has 0 objects ≡ false) (m : Memory) (r o : ℕ → ℕ) (e : IsExact shape objects m r o)
    (ready : IsReady shape objects m) (os : List ℕ) (once : Distinct os)
    (good : (q : ℕ) → has q os ≡ true → IsThere objects m q)
    (listed : (q : ℕ) → has q e.list ≡ true → has q os ≡ true)
    (linked : (q p : ℕ)
      → has q os ≡ true
      → has p (wraps_of shape q) ≡ true
      → (shape p).immortal ≡ false
      → has p os ≡ true)
    (is_root : ℕ → Type 0)
    (roots : (j : ℕ)
      → j < length os
      → is_root j ↔ (
          (is_pinned (object_of shape is_string m) (get_or os j 0) ≡ true)
          ⊎ (m.reference_count (get_or os j 0) + m.property_reference_count (get_or os j 0)
              ≢ owners_from os (object_of shape is_string m) (length os) 0 j))) where
  abbrev owned : ℕ → List ℕ
  owned = owned_edges (object_of shape is_string m)

  abbrev others : ℕ → ℕ
  others p = total p (outside os (live_holds shape objects apart no_null m r o e)) objects

  non_null : (p : ℕ) → has p objects ≡ true → p ≢ 0
  non_null p h z = absurd (ground arith)

  count-owned : (p q : ℕ) → p ≢ 0 → count p (owned q) ≡ count p (holds_of shape m q)
  count-owned p q ne = count-owned_edges shape is_string m p q ne (ready.tidy q)

  has-owned : (p q : ℕ) → p ≢ 0 → has p (owned q) ≡ true → has p (holds_of shape m q) ≡ true
  has-owned p q ne h =
      has_of_count p (holds_of shape m q)
        (omega (arith, count-owned p q ne, count_of_has p (owned q) h))

  owned-has : (p q : ℕ) → p ≢ 0 → has p (holds_of shape m q) ≡ true → has p (owned q) ≡ true
  owned-has p q ne h =
      has_of_count p (owned q)
        (omega (arith, count-owned p q ne, count_of_has p (holds_of shape m q) h))

  -- A mortal object of the graph has as many references as owners in the graph, but for those that
  -- are not in the graph and those outside.
  references_eq :
      (j : ℕ)
      → j < length os
      → (shape (get_or os j 0)).immortal ≡ false
      → m.reference_count (get_or os j 0) + m.property_reference_count (get_or os j 0)
        ≡ owners_from os (object_of shape is_string m) (length os) 0 j
          + others (get_or os j 0)
          + (r (get_or os j 0) + o (get_or os j 0))
  references_eq j lt mortal =
      let p = get_or os j 0 in
      let there = good p (has-get_or os j lt) in
      let ne = non_null p there.0 in
      let owners = owners_from-total os (object_of shape is_string m) j once lt ne in
      let same : total p owned os ≡ total p (live_holds shape objects apart no_null m r o e) os =
        total_counts p owned (live_holds shape objects apart no_null m r o e) os (λ q h.
          count-owned p q ne
          ∙ ap (count p)
              (sym (live_holds_eq shape objects apart no_null m r o e q (good q h).1))) in
      omega (
        arith,
        counts_split shape objects apart no_null m r o e os once good listed linked ready.shallow p
            there.0 mortal,
        owners,
        same,
      )

  other_holder :
      (p q : ℕ)
      → has p (outside os (live_holds shape objects apart no_null m r o e) q) ≡ true
      → (has q os ≡ false) × (gone m q ≡ false) × (has p (holds_of shape m q) ≡ true)
  other_holder p q h = elim (Bool-cases (has q os)) [
    | inl inner ↦ absurd_bool (has p []) refl (rw inner at h)
    | inr outer ↦ elim (Bool-cases (gone m q)) [
      | inl d ↦ absurd_bool (has p []) refl (rw (outer, d) at h)
      | inr d ↦ (outer, d, rw (outer, d) at h)
    ]
  ]

  weaken :
      {p : ℕ}
      → Reached shape objects m (held_outside shape r o) p
      → Reached shape objects m (anchored shape is_string r o) p
  weaken (anchor_of t a) = anchor_of t (rw a refl)
  weaken (held_by from h) = held_by (weaken from) h

  away_Reached :
      (p : ℕ)
      → IsThere objects m p
      → has p os ≡ false
      → Reached shape objects m (anchored shape is_string r o) p
  away_Reached p t new = weaken (
      outside_Reached shape objects apart no_null m r o e os once good listed linked ready.shallow p
        t new)

  root_Reached :
      (j : ℕ)
      → j < length os
      → is_root j
      → Reached shape objects m (anchored shape is_string r o) (get_or os j 0)
  root_Reached j lt is =
      let p = get_or os j 0 in
      let there = good p (has-get_or os j lt) in
      elim (Bool-cases (anchored shape is_string r o p)) [
        | inl anchor ↦ anchor_of there anchor
        | inr free ↦
            let mortal : (shape p).immortal ≡ false = ground arith in
            let sum = references_eq j lt mortal in
            let held : 0 < others p = elim ((roots j lt).0 is) [
              | inl pinned ↦ let left = there.1 in absurd (ground arith)
              | inr differ ↦ elim (Bool-cases (others p == 0)) [
                | inl none ↦ absurd (differ (ground arith))
                | inr some ↦ ground arith
              ]
            ] in
            let (q, hq, h) =
              total_holder p (outside os (live_holds shape objects apart no_null m r o e)) objects
                held in
            let (outer, left, holds) = other_holder p q h in
            held_by (away_Reached q (hq, left) outer) holds
      ]

  pub Reachable-Reached :
      {j : ℕ}
      → Reachable os owned is_root j
      → Reached shape objects m (anchored shape is_string r o) (get_or os j 0)
  Reachable-Reached (root {j} lt is) = root_Reached j lt is
  Reachable-Reached (owned_by {i} {j} from owns) =
      let holds =
        has-owned owns.pointer (get_or os i 0) owns.non_null
          (Occurs-has owns.pointer (owned (get_or os i 0)) owns.among) in
      rw (get_or-position os owns.pointer j owns.leads)
        (held_by {q = get_or os i 0} {p = owns.pointer} (Reachable-Reached from) holds)

  pub left-Reached :
      (p : ℕ)
      → IsThere objects m p
      → ((j : ℕ) → j < length os → get_or os j 0 ≡ p → Reachable os owned is_root j)
      → Reached shape objects m (anchored shape is_string r o) p
  left-Reached p t live = elim (Bool-cases (has p os)) [
    | inr outer ↦ away_Reached p t outer
    | inl inner ↦
        let (j, lt, at) = place_of os p inner in rw (sym at) (Reachable-Reached (live j lt at))
  ]

  -- The nodes that were not reached.
  module _ (ps : List ℕ) (distinct : Distinct ps)
      (chosen : (p : ℕ)
        → has p ps ≡ true
          ↔ ((j : ℕ) × (j < length os) × (get_or os j 0 ≡ p) × (Reachable os owned is_root j → ⊥)))
      (decided : (j : ℕ)
        → j < length os
        → Reachable os owned is_root j ⊎ (Reachable os owned is_root j → ⊥)) where
    no_holders :
        (p : ℕ)
        → has p ps ≡ true
        → ((shape p).immortal ≡ false) × (r p ≡ 0) × (o p ≡ 0) × (others p ≡ 0)
    no_holders p h =
        let (j, lt, at, dead) = (chosen p).0 h in
        let there = good (get_or os j 0) (has-get_or os j lt) in
        let mortal : (shape (get_or os j 0)).immortal ≡ false =
          elim (Bool-cases (shape (get_or os j 0)).immortal) [
            | inr x ↦ x
            | inl forever ↦ absurd (dead (root lt ((roots j lt).1 (inl (rw forever refl)))))
          ] in
        let sum = references_eq j lt mortal in
        let equal : others (get_or os j 0) + (r (get_or os j 0) + o (get_or os j 0)) ≡ 0 =
          elim (Bool-cases
            (others (get_or os j 0) + (r (get_or os j 0) + o (get_or os j 0)) == 0)) [
              | inl z ↦ (==_iff _ 0).0 z
              | inr some ↦
                  absurd (dead (root lt ((roots j lt).1 (inr (λ x. absurd (ground arith))))))
            ] in
        rw (sym at) (mortal, omega arith, omega arith, omega arith)

    pub chosen-IsGarbage : IsGarbage shape objects apart no_null ps m r o
    chosen-IsGarbage = record {
      once = distinct;
      each = λ p h.
          let (j, lt, at, dead) = (chosen p).0 h in
          let there : IsThere objects m p =
            rw (sym at) (good (get_or os j 0) (has-get_or os j lt)) in
          (there.0, there.1, omega (arith, (ready.room p there).0));
      unheld = λ p h. let (mortal, no_r, no_o, _) = no_holders p h in (no_r, no_o, mortal);
      tidy = λ p h. ready.tidy p;
      closed = λ q p hq left h holds.
          let there : IsThere objects m q = (hq, left) in
          let among : has p (holds_of shape m q) ≡ true =
            has-append p (wraps_of shape q) (slots_of shape m q) ∙ elim holds [
              | inl s ↦ rw s (elim (Bool-cases (has p (wraps_of shape q))) [
                | inl w ↦ rw w refl
                | inr w ↦ rw w refl
              ])
              | inr w ↦ rw w refl
            ] in
          let (_, _, _, none) = no_holders p h in
          elim (Bool-cases (has q os)) [
            | inr outer ↦
                let pos =
                  total_pos p q (outside os (live_holds shape objects apart no_null m r o e))
                    objects hq (rw (outer, left) among) in
                absurd (omega arith)
            | inl inner ↦
                let (i, lt, at) = place_of os q inner in
                let (j, lt', at', dead) = (chosen p).0 h in
                (chosen q).1 (
                  i,
                  lt,
                  at,
                  λ live.
                      let ne =
                        non_null p
                          (held_there shape objects apart no_null m r o e q p there among).0 in
                      dead (
                        owned_by live (record {
                          pointer = p;
                          non_null = ne;
                          among =
                              has-Occurs p (owned (get_or os i 0)) (rw at (owned-has p q ne among));
                          leads = ap (position os) (sym at') ∙ position_at os j once lt';
                        })),
                )
          ];
      shallow = ready.shallow;
    }
