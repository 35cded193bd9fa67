-- ===== src/Collection/Kept.antt =====
-- What a collection keeps and what it frees.
use mathlib.Core.Path.{subst}
use am_lang_core.Base.{
  ℕ, ◌+◌, ◌%◌, ◌^◌, ◌<◌, ◌≤◌, ◌≡◌, ◌≢◌, ◌⊎◌, ◌↔◌, refl, sym, ap, ◌∙◌, Bool, true, false, some, List,
  [], arith, inl, inr, Bool-cases, length, get_or,
}
use am_lang_core.Collector.{Node, no_node, Graph, node, cycle_init}
use am_lang_core.Collector.Table.{objects, length-objects, get_or-objects}
use am_lang_core.Collector.Marking.{Reachable, IsLive}
use am_lang_core.Collector.Reach.{IsRoot}
use am_lang_core.Collector.Collect.{
  ClassType, interface_type, class_type, function_reference, owned_edges, references_of, build,
  weigh, collect_marks, unreached, is_interface,
}
use am_lang_core.Collector.Collect.Build.{collect_marks-Collects, cycle_init-IsBuilt}
use am_lang_core.Collector.Collect.Weigh.{is_pinned, owners_from, weigh-IsRoot, weigh-objects}
use am_lang_core.Counting.Chain.{has, Distinct}
use am_lang_core.Counting.Ledger.{living}
use am_lang_core.Counting.Sound.{gone, slots_of, wraps_of}
use am_lang_core.Counting.Exact.{IsExact}
use am_lang_core.Counting.Decrease.{absurd_bool}
use am_lang_core.Counting.{Shape, Memory, is_interface_type}
use am_lang_core.Counting.Cleared.{left_before}
use am_lang_core.Counting.Reclaim.{reclaim}
use am_lang_core.Counting.Reclaimed.{reclaim-Reclaims}
use am_lang_core.Collection.{object_of, first_objects, collect}
use am_lang_core.Collection.Lists.{Distinct-AreNew, length-living, has-append}
use am_lang_core.Collection.Nodes.{IsFresh, Built, build-Built}
use am_lang_core.Collection.Held.{
  held_outside, anchored, IsThere, Reached, anchor_of, held_by, first_objects-chain, anchor_left,
  held_there, Reached-there, listed_there, listed_null, length-listed,
}
use am_lang_core.Collection.Chosen.{IsReady, left-Reached, chosen-IsGarbage}
use am_lang_core.Collection.Unreached.{fresh_at, has-unreached, unreached-has, unreached-Distinct}

interface_same : (t : ClassType) → is_interface t ≡ is_interface_type t
interface_same interface_type = refl
interface_same class_type = refl
interface_same function_reference = refl

module _ (shape : ℕ → Shape) (is_string : ℕ → Bool) (objects_of : List ℕ)
    (apart : Distinct objects_of) (no_null : has 0 objects_of ≡ false) where
  -- After a collection the counts are exact. What can be reached by holding from an object that is
  -- immortal or held from outside is kept; what is kept can be reached from such an object, or from one
  -- with a native finalizer. What is kept holds in its slots what it held.
  pub record Collected (m : Memory) (r o : ℕ → ℕ) (m' : Memory) : Type 0 where
    pub exact : IsExact shape objects_of m' r o
    pub spared : (p : ℕ) → Reached shape objects_of m (held_outside shape r o) p → gone m' p ≡ false
    pub swept :
        (p : ℕ)
        → IsThere objects_of m' p
        → Reached shape objects_of m (anchored shape is_string r o) p
    pub slots : (q : ℕ) → IsThere objects_of m' q → slots_of shape m' q ≡ slots_of shape m q
    pub allocated :
        (m'.allocation_count + length m'.freed) % 2 ^ 32
        ≡ (m.allocation_count + length m.freed) % 2 ^ 32

  module _ (m : Memory) (r o : ℕ → ℕ) (e : IsExact shape objects_of m r o) where
    -- Objects that outside reaches stay where the objects that are left keep what they hold.
    Reached-stays :
        (m' : Memory)
        → IsExact shape objects_of m' r o
        → ((q : ℕ)
            → has q objects_of ≡ true
            → gone m' q ≡ false
            → slots_of shape m' q ≡ slots_of shape m q)
        → {p : ℕ} → Reached shape objects_of m (held_outside shape r o) p
        → gone m' p ≡ false
    Reached-stays m' e' same (anchor_of {p} t a) =
        anchor_left shape objects_of apart no_null m' r o e' p t.0 a
    Reached-stays m' e' same (held_by {q} {p} from h) =
        let there = Reached-there shape objects_of apart no_null m r o e from in
        let left = Reached-stays m' e' same from in
        (held_there shape objects_of apart no_null m' r o e' q p (there.0, left)
          (rw (same q there.0 left) h)).1

    module _ (fuel : ℕ) (ready : IsReady shape objects_of m)
        (few : living (gone m) objects_of < fuel) where
      abbrev heap : ℕ → am_lang_core.Collector.Collect.HeapObject
      heap = object_of shape is_string m

      list_eq : first_objects fuel m.next m.first_object ≡ e.list
      list_eq =
          first_objects-chain m.next m.prev e.list 0 m.first_object fuel e.sound.chain
            (omega (arith, length-listed shape objects_of apart no_null m r o e))

      wraps-has :
          (q : ℕ)
          → is_interface (heap q).type_of_class ≡ true
          → (heap q).implementation_object ≢ 0
          → has (heap q).implementation_object (wraps_of shape q) ≡ true
      wraps-has q i n = rw (sym (interface_same (shape q).type_of_class) ∙ i) (ground arith)

      has-wraps :
          (q p : ℕ)
          → has p (wraps_of shape q) ≡ true
          → (is_interface (shape q).type_of_class ≡ true)
            × ((shape q).implementation_object ≢ 0)
            × ((shape q).implementation_object ≡ p)
      has-wraps q p h = ground (arith, interface_same (shape q).type_of_class)

      step :
          (q : ℕ)
          → IsThere objects_of m q
          → is_interface (heap q).type_of_class ≡ true
          → (heap q).implementation_object ≢ 0
          → (heap (heap q).implementation_object).immortal ≡ false
          → IsThere objects_of m (heap q).implementation_object
      step q t i n mortal =
          held_there shape objects_of apart no_null m r o e q (heap q).implementation_object t (
            has-append (heap q).implementation_object (wraps_of shape q) (slots_of shape m q)
            ∙ rw (wraps-has q i n) refl)

      fits :
          (os : List ℕ)
          → Distinct os
          → ((q : ℕ) → has q os ≡ true → IsThere objects_of m q)
          → length os ≤ living (gone m) objects_of
      fits os d good =
          length-living (gone m) objects_of os apart d (λ q h. (good q h).0) (λ q h. (good q h).1)

      module _ (g : Graph)
          (b : Built heap (IsThere objects_of m) (living (gone m) objects_of) step fits e.list g)
          (marked : Graph) (nodes : objects marked.nodes ≡ objects g.nodes)
          (live : (j : ℕ)
            → IsLive marked j
              ↔ Reachable (objects g.nodes) (owned_edges heap) (IsRoot (weigh heap g)) j) where
        abbrev os : List ℕ
        os = objects g.nodes

        abbrev IsRootNode : ℕ → Type 0
        IsRootNode j = IsRoot (weigh heap g) j

        roots :
            (j : ℕ)
            → j < length os
            → IsRootNode j ↔ (
                (is_pinned heap (get_or os j 0) ≡ true)
                ⊎ (m.reference_count (get_or os j 0) + m.property_reference_count (get_or os j 0)
                    ≢ owners_from os heap (length os) 0 j))
        roots j lt =
            let lt' : j < length g.nodes = omega (arith, length-objects g.nodes) in
            let (references, internal) = fresh_at (IsFresh heap) g.nodes j b.order.fresh lt' in
            let same : (node g j).references
                ≡ m.reference_count (get_or os j 0) + m.property_reference_count (get_or os j 0) =
              references ∙ ap (references_of heap) (get_or-objects g.nodes j) in
            rw (sym same, length-objects g.nodes) (weigh-IsRoot heap g j b.order.built lt' internal)

        linked :
            (q p : ℕ)
            → has q os ≡ true
            → has p (wraps_of shape q) ≡ true
            → (shape p).immortal ≡ false
            → has p os ≡ true
        linked q p h w mortal =
            let (i, n, at) = has-wraps q p w in
            ap (λ x. has x os) (sym at)
            ∙ b.linked q h i n (ap (λ x. (shape x).immortal) at ∙ mortal)

        decided :
            (j : ℕ)
            → j < length os
            → Reachable os (owned_edges heap) IsRootNode j
              ⊎ (Reachable os (owned_edges heap) IsRootNode j → ⊥)
        decided j lt = elim (Bool-cases (node marked j).live) [
          | inl l ↦ inl ((live j).0 l)
          | inr l ↦ inr (λ x. absurd_bool (node marked j).live l ((live j).1 x))
        ]

        size : length marked.nodes ≡ length os
        size = sym (length-objects marked.nodes) ∙ ap length nodes

        object_at : (j : ℕ) → (node marked j).object ≡ get_or os j 0
        object_at j = get_or-objects marked.nodes j ∙ ap (λ l. get_or l j 0) nodes

        unreached_iff :
            (p : ℕ)
            → has p (unreached marked.nodes) ≡ true ↔ (
                (j : ℕ) × (j < length os)
                × (get_or os j 0 ≡ p)
                × (Reachable os (owned_edges heap) IsRootNode j → ⊥))
        unreached_iff p = (
          (λ h.
              let (j, lt, at, dead) = has-unreached marked.nodes p h in
              (
                j,
                omega (arith, size),
                sym (object_at j) ∙ at,
                λ x. absurd_bool (node marked j).live dead ((live j).1 x),
              )),
          (λ (j, lt, at, dead). elim (Bool-cases (node marked j).live) [
            | inl l ↦ absurd (dead ((live j).0 l))
            | inr l ↦
                ap (λ x. has x (unreached marked.nodes)) (sym at ∙ sym (object_at j))
                ∙ unreached-has marked.nodes j (omega (arith, size)) l
          ]),
        )

        reclaim-Collected : Collected m r o (reclaim shape fuel (unreached marked.nodes) m)
        reclaim-Collected =
            let ps = unreached marked.nodes in
            let distinct = unreached-Distinct marked.nodes (rw nodes b.order.apart) in
            let garbage =
              chosen-IsGarbage shape is_string objects_of apart no_null m r o e ready os
                b.order.apart b.order.good b.listed linked IsRootNode roots ps distinct
                unreached_iff decided in
            let done =
              reclaim-Reclaims shape objects_of apart no_null ps m r o fuel garbage e few in
            let m' = reclaim shape fuel ps m in
            record {
              exact = done.exact;
              spared = λ p. Reached-stays m' done.exact done.slots;
              swept = λ p t.
                  let left : gone m p ≡ false =
                    left_before (gone m p) (gone m' p) (done.stays p) t.1 in
                  left-Reached shape is_string objects_of apart no_null m r o e ready os
                    b.order.apart b.order.good b.listed linked IsRootNode roots p (t.0, left)
                    (λ j lt at. elim (decided j lt) [
                      | inl x ↦ x
                      | inr x ↦
                          absurd_bool (gone m' p) t.1
                            (done.freed p ((unreached_iff p).1 (j, lt, at, x)))
                    ]);
              slots = λ q t. done.slots q t.0 t.1;
              allocated = done.allocated;
            }

      collect_eq :
          (list : List ℕ) (marked : Graph)
          → first_objects fuel m.next m.first_object ≡ list
          → collect_marks false true m.allocation_count heap list ≡ some marked
          → collect shape is_string false true fuel m
            ≡ reclaim shape fuel (unreached marked.nodes) m
      unfolding collect
      collect_eq list marked listed runs = rw (collect, listed, runs) refl

      -- A collection that has no detached objects before it and gets its workspace, over exact counts,
      -- with a heap that is ready and more fuel than there are objects left: the counts are exact
      -- afterwards. What can be reached, by what objects hold, from an object that is immortal or held
      -- from outside is kept. What is kept can be reached from such an object or from one with a native
      -- finalizer, so that every other object is freed, cycles included. What is kept holds in its slots
      -- what it held, and the number of allocated objects goes down by one for each that is freed.
      pub collect-Collected : Collected m r o (collect shape is_string false true fuel m)
      collect-Collected =
          let few_listed = length-listed shape objects_of apart no_null m r o e in
          let null = listed_null shape objects_of apart no_null m r o e in
          let there = listed_there shape objects_of apart no_null m r o e in
          let (w, marked, c) =
            collect_marks-Collects m.allocation_count heap e.list ready.small
              (Distinct-AreNew [] e.list e.sound.distinct null (λ p h. refl))
              (omega (arith, few_listed, ready.counted)) in
          let (g0, run, weighed) = c.weighed in
          let (built, empty, size) = cycle_init-IsBuilt m.allocation_count g0 ready.small run in
          let g = build m.allocation_count heap e.list g0 in
          let b =
            build-Built heap (IsThere objects_of m) (living (gone m) objects_of) step fits
              m.allocation_count e.list g0 built empty (omega (arith, ready.counted)) ready.counted
              e.sound.distinct null there in
          let same : objects w.nodes ≡ objects g.nodes =
            ap (λ h. objects h.nodes) weighed ∙ weigh-objects heap g b.order.built in
          let live : (j : ℕ)
              → IsLive marked j
                ↔ Reachable (objects g.nodes) (owned_edges heap) (IsRoot (weigh heap g)) j =
            subst
              (λ h.
                (j : ℕ)
                → IsLive marked j ↔ Reachable (objects g.nodes) (owned_edges heap) (IsRoot h) j)
              weighed
              (subst (λ l. (j : ℕ) → IsLive marked j ↔ Reachable l (owned_edges heap) (IsRoot w) j)
                same c.live) in
          rw (collect_eq e.list marked list_eq c.runs)
            (reclaim-Collected g b marked (c.nodes ∙ same) live)
