-- ===== src/Collection/Owners.antt =====
-- The owning pointers that the analysis counts are what the objects hold: `gc_owned_edges` and
-- `cycle_edge` against the slots and the interface wrappers.
use am_lang_core.Base.{
  ℕ, suc, ◌+◌, ◌<◌, ◌≡◌, ◌≢◌, refl, sym, ap, ◌∙◌, true, false, List, [], ◌∷◌, ◌++◌, arith, ◌==◌,
  inl, inr, Bool, Bool-cases, ==_iff, if◌then◌else◌, length, get_or, ltb,
}
use am_lang_core.Values.{NullableValue}
use am_lang_core.Collector.Table.{position}
use am_lang_core.Collector.Collect.{
  Heap, ClassType, interface_type, class_type, function_reference, owned_values, owned_items,
  owned_of_class, owned_edges,
}
use am_lang_core.Collector.Collect.Weigh.{hits, owners_from}
use am_lang_core.Counting.Chain.{Distinct}
use am_lang_core.Counting.Ledger.{count, total}
use am_lang_core.Counting.Edges.{count-append}
use am_lang_core.Counting.Sound.{held_values, held_pointers, held_by_release, slots_of, wraps_of}
use am_lang_core.Counting.{
  Shape, Release, no_release, array_release, data_release, Elements, primitive_elements,
  object_elements, any_elements, Memory, owns, is_class_type,
}
use am_lang_core.Counting.Reclaim.{is_array}
use am_lang_core.Collection.{array_items, object_of}
use am_lang_core.Collection.Lists.{position_at, get_or-position}

count-owned_values :
    (p : ℕ) (vs : List NullableValue) → p ≢ 0 → count p (owned_values vs) ≡ count p (held_values vs)
unfolding owned_values owns
count-owned_values p [] ne = refl
count-owned_values p (v ∷ vs) ne = ground (arith, count-owned_values p vs)

count-held_pointers : (p : ℕ) (ps : List ℕ) → p ≢ 0 → count p ps ≡ count p (held_pointers ps)
count-held_pointers p [] ne = refl
count-held_pointers p (q ∷ ps) ne = ground (arith, count-held_pointers p ps)

count-owned_items :
    (p : ℕ) (r : Release) (es : Elements)
    → p ≢ 0
    → count p (owned_items (array_items r es)) ≡ count p (held_by_release r es)
unfolding owned_items
count-owned_items p no_release es ne = refl
count-owned_items p data_release es ne = refl
count-owned_items p array_release primitive_elements ne = refl
count-owned_items p array_release (object_elements ps) ne = count-held_pointers p ps ne
count-owned_items p array_release (any_elements vs) ne = count-owned_values p vs ne

no_items :
    (r : Release) (es : Elements)
    → (is_array r ≡ true → ◌≡◌ {A = Bool} false true)
    → held_by_release r es ≡ []
no_items no_release es h = refl
no_items data_release es h = refl
no_items array_release es h = absurd (cc (h refl))

-- What an object holds, by either count.
abbrev pub holds_of : (ℕ → Shape) → Memory → ℕ → List ℕ
holds_of shape m q = wraps_of shape q ++ slots_of shape m q

module _ (shape : ℕ → Shape) (is_string : ℕ → Bool) (m : Memory) where
  count-owned_of_class :
      (p q : ℕ)
      → p ≢ 0
      → (t : ClassType) → (shape q).type_of_class ≡ t
      → (is_array (shape q).release ≡ true → is_class_type (shape q).type_of_class ≡ true)
      → count p (owned_of_class (object_of shape is_string m q) t) ≡ count p (holds_of shape m q)
  unfolding owned_of_class
  count-owned_of_class p q ne interface_type e tidy =
      rw (e, no_items (shape q).release (m.elements q) (λ a. ap is_class_type (sym e) ∙ tidy a))
        (ground arith)
  count-owned_of_class p q ne function_reference e tidy =
      rw (e, no_items (shape q).release (m.elements q) (λ a. ap is_class_type (sym e) ∙ tidy a))
        refl
  count-owned_of_class p q ne class_type e tidy = rw e (
      ground (
        arith,
        count-append p
            (if (shape q).object_property_count == 0 then [] else owned_values (m.properties q))
            (owned_items (array_items (shape q).release (m.elements q))),
        count-append p (held_by_release (shape q).release (m.elements q))
            (if ltb 0 (shape q).object_property_count then held_values (m.properties q) else []),
        count-owned_items p (shape q).release (m.elements q),
        count-owned_values p (m.properties q),
      ))

  pub count-owned_edges :
      (p q : ℕ)
      → p ≢ 0
      → (is_array (shape q).release ≡ true → is_class_type (shape q).type_of_class ≡ true)
      → count p (owned_edges (object_of shape is_string m) q) ≡ count p (holds_of shape m q)
  unfolding owned_edges
  count-owned_edges p q ne tidy = count-owned_of_class p q ne (shape q).type_of_class refl tidy

hits-count :
    (os ps : List ℕ) (j : ℕ)
    → Distinct os
    → j < length os
    → get_or os j 0 ≢ 0
    → hits os ps j ≡ count (get_or os j 0) ps
hits-count os [] j d lt ne = refl
hits-count os (p ∷ ps) j d lt ne =
    let rest = hits-count os ps j d lt ne in
    elim (Bool-cases (get_or os j 0 == p)) [
      | inl e ↦
          let e' = (==_iff (get_or os j 0) p).0 e in
          ground (arith, position_at os j d lt, ap (λ x. position os x) e')
      | inr e ↦ ground (arith, get_or-position os p j)
    ]

owners_from-suffix :
    (os : List ℕ) (heap : Heap) (j : ℕ)
    → Distinct os
    → j < length os
    → get_or os j 0 ≢ 0
    → (qs : List ℕ) (i : ℕ) → ((k : ℕ) → get_or os (i + k) 0 ≡ get_or qs k 0)
    → owners_from os heap (length qs) i j ≡ total (get_or os j 0) (owned_edges heap) qs
owners_from-suffix os heap j d lt ne [] i same = refl
owners_from-suffix os heap j d lt ne (q ∷ qs) i same =
    let rest =
      owners_from-suffix os heap j d lt ne qs (suc i)
        (λ k. ap (λ x. get_or os x 0) (omega arith) ∙ same (suc k)) in
    let first : get_or os i 0 ≡ q = ap (λ x. get_or os x 0) (omega arith) ∙ same 0 in
    let here = hits-count os (owned_edges heap q) j d lt ne in rw first (omega (arith, here, rest))

-- The number of owning pointers to a node is a sum over the objects of the graph.
pub owners_from-total :
    (os : List ℕ) (heap : Heap) (j : ℕ)
    → Distinct os
    → j < length os
    → get_or os j 0 ≢ 0
    → owners_from os heap (length os) 0 j ≡ total (get_or os j 0) (owned_edges heap) os
owners_from-total os heap j d lt ne =
    owners_from-suffix os heap j d lt ne os 0 (λ k. ap (λ x. get_or os x 0) (omega arith))
