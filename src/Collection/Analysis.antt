-- ===== src/Collection/Analysis.antt =====
-- What the analysis of `Am_Lang_GC_collect_0` decides, said of the heap alone: which objects come into the
-- graph, and which of them are left to reclaim.
use mathlib.Core.Path.{subst}
use am_lang_core.Base.{
  ℕ, ◌^◌, ◌<◌, ◌≤◌, ◌≡◌, ◌≢◌, ◌⊎◌, ◌↔◌, refl, sym, ap, ◌∙◌, true, false, some, List, [], ◌∷◌, arith,
  All, inl, inr, Bool-cases, length, get_or,
}
use am_lang_core.Collector.{Graph, node}
use am_lang_core.Collector.Table.{objects, position, length-objects, get_or-objects}
use am_lang_core.Collector.Marking.{Reachable, root, owned_by, IsLive, position-lt}
use am_lang_core.Collector.Reach.{IsRoot}
use am_lang_core.Collector.Collect.{
  Heap, owned_edges, references_of, is_interface, build, weigh, collect_marks, unreached,
}
use am_lang_core.Collector.Collect.Build.{IsBuilt, collect_marks-Collects, cycle_init-IsBuilt}
use am_lang_core.Collector.Collect.Weigh.{is_pinned, weigh-IsRoot, weigh-objects}
use am_lang_core.Counting.Chain.{has, Distinct}
use am_lang_core.Counting.Ledger.{total, living}
use am_lang_core.Counting.Decrease.{absurd_bool}
use am_lang_core.Collection.Lists.{
  Distinct-AreNew, length-living, place_of, position_at, has-get_or, get_or-position,
}
use am_lang_core.Collection.Owners.{owners_from-total}
use am_lang_core.Collection.Nodes.{IsFresh, build-Built}
use am_lang_core.Collection.Unreached.{fresh_at, has-unreached, unreached-has}
use am_lang_core.Collection.Chosen.{Occurs-has, has-Occurs}

-- The collector must leave an object alone that is pinned, or that has not as many references as the
-- objects of the graph have owning pointers to it.
abbrev pub IsAnchor : Heap → List ℕ → ℕ → Type 0
IsAnchor heap os p =
    (is_pinned heap p ≡ true) ⊎ (references_of heap p ≢ total p (owned_edges heap) os)

-- From such an object by owning pointers.
pub data Spared (heap : Heap) (os : List ℕ) : ℕ → Type 0 where
  anchor : {p : ℕ} → has p os ≡ true → IsAnchor heap os p → Spared heap os p
  owned :
      {q p : ℕ}
      → Spared heap os q
      → has p os ≡ true
      → has p (owned_edges heap q) ≡ true
      → Spared heap os p

Spared-has : {heap : Heap} {os : List ℕ} {p : ℕ} → Spared heap os p → has p os ≡ true
Spared-has (anchor h a) = h
Spared-has (owned from h o) = h

-- The graph holds the listed objects, of the objects that there are, and what its interface wrappers wrap;
-- what is left to reclaim are its objects that are not spared.
pub record Decides (heap : Heap) (universe first : List ℕ) (count : ℕ) (os : List ℕ) (g : Graph)
    : Type 0 where
  pub runs : collect_marks false true count heap first ≡ some g
  pub nodes : objects g.nodes ≡ os
  pub once : Distinct os
  pub among : (p : ℕ) → has p os ≡ true → has p universe ≡ true
  pub listed : (p : ℕ) → has p first ≡ true → has p os ≡ true
  pub linked :
      (q : ℕ)
      → has q os ≡ true
      → is_interface (heap q).type_of_class ≡ true
      → (heap q).implementation_object ≢ 0
      → (heap (heap q).implementation_object).immortal ≡ false
      → has (heap q).implementation_object os ≡ true
  pub reclaimed :
      (p : ℕ) → has p (unreached g.nodes) ≡ true ↔ ((has p os ≡ true) × (Spared heap os p → ⊥))

non_null : (os : List ℕ) → has 0 os ≡ false → (p : ℕ) → has p os ≡ true → p ≢ 0
non_null os null p h z = absurd (ground arith)

-- The marking by positions, where the roots are those objects.
module _ (heap : Heap) (os : List ℕ) (once : Distinct os) (no_null : has 0 os ≡ false)
    (is_root : ℕ → Type 0)
    (roots : (j : ℕ) → j < length os → is_root j ↔ IsAnchor heap os (get_or os j 0)) where
  Reachable-Spared :
      {j : ℕ} → Reachable os (owned_edges heap) is_root j → Spared heap os (get_or os j 0)
  Reachable-Spared (root {j} lt r) = anchor (has-get_or os j lt) ((roots j lt).0 r)
  Reachable-Spared (owned_by {i} {j} from owns) =
      let at = get_or-position os owns.pointer j owns.leads in
      let lt : j < length os = position-lt os owns.pointer j owns.leads in
      owned (Reachable-Spared from) (has-get_or os j lt) (
        ap (λ x. has x (owned_edges heap (get_or os i 0))) at
        ∙ Occurs-has owns.pointer (owned_edges heap (get_or os i 0)) owns.among)

  Spared-Reachable :
      {p : ℕ}
      → Spared heap os p
      → (j : ℕ) → j < length os
      → get_or os j 0 ≡ p
      → Reachable os (owned_edges heap) is_root j
  Spared-Reachable (anchor {p} h a) j lt at =
      root lt ((roots j lt).1 (subst (IsAnchor heap os) (sym at) a))
  Spared-Reachable (owned {q} {p} from h o) j lt at =
      let (i, lt', at') = place_of os q (Spared-has from) in
      owned_by (Spared-Reachable from i lt' at') (record {
        pointer = p;
        non_null = non_null os no_null p h;
        among =
            has-Occurs p (owned_edges heap (get_or os i 0))
              (ap (λ x. has p (owned_edges heap x)) at' ∙ o);
        leads = ap (position os) (sym at) ∙ position_at os j once lt;
      })

-- The roots of the weighed graph are the anchors.
anchors :
    (heap : Heap) (g : Graph)
    → IsBuilt g
    → All (IsFresh heap) g.nodes
    → Distinct (objects g.nodes)
    → has 0 (objects g.nodes) ≡ false
    → (j : ℕ) → j < length (objects g.nodes)
    → IsRoot (weigh heap g) j ↔ IsAnchor heap (objects g.nodes) (get_or (objects g.nodes) j 0)
anchors heap g built fresh once null j lt =
    let os = objects g.nodes in
    let lt' : j < length g.nodes = omega (arith, length-objects g.nodes) in
    let (references, internal) = fresh_at (IsFresh heap) g.nodes j fresh lt' in
    let same : (node g j).references ≡ references_of heap (get_or os j 0) =
      references ∙ ap (references_of heap) (get_or-objects g.nodes j) in
    let real : get_or os j 0 ≢ 0 = non_null os null (get_or os j 0) (has-get_or os j lt) in
    rw (sym same, sym (owners_from-total os heap j once lt real), length-objects g.nodes)
      (weigh-IsRoot heap g j built lt' internal)

living_all : (qs : List ℕ) → living (λ q. false) qs ≡ length qs
living_all [] = refl
living_all (q ∷ qs) = omega (arith, living_all qs)

module _ (heap : Heap) (universe : List ℕ) (apart : Distinct universe)
    (no_null : has 0 universe ≡ false)
    (closed : (q : ℕ)
      → has q universe ≡ true
      → is_interface (heap q).type_of_class ≡ true
      → (heap q).implementation_object ≢ 0
      → (heap (heap q).implementation_object).immortal ≡ false
      → has (heap q).implementation_object universe ≡ true) where
  fits :
      (os : List ℕ)
      → Distinct os
      → ((q : ℕ) → has q os ≡ true → has q universe ≡ true)
      → length os ≤ length universe
  fits os d sub =
      omega (
        arith,
        length-living (λ q. false) universe os apart d sub (λ q h. refl),
        living_all universe,
      )

  -- The whole analysis, with no detached objects before it and its workspace allocated, over at most
  -- `count` objects, on which the listed ones are, each once, and what interface wrappers among them wrap:
  -- it ends with a graph of the listed objects and of what its wrappers wrap. What it leaves to reclaim are
  -- exactly the objects of the graph that cannot be reached, by owning pointers, from one that is pinned or
  -- has not as many references as owning pointers lead to it from the objects of the graph.
  pub collect_marks-Decides :
      (count : ℕ) (first : List ℕ)
      → count < 2 ^ 63
      → length universe ≤ count
      → Distinct first
      → ((p : ℕ) → has p first ≡ true → has p universe ≡ true)
      → (os : List ℕ) × (g : Graph) × Decides heap universe first count os g
  collect_marks-Decides count first small few once sub =
      let null : has 0 first ≡ false = elim (Bool-cases (has 0 first)) [
        | inr z ↦ z
        | inl z ↦ absurd_bool (has 0 universe) no_null (sub 0 z)
      ] in
      let (w, marked, c) =
        collect_marks-Collects count heap first small
          (Distinct-AreNew [] first once null (λ p h. refl)) (omega (arith, fits first once sub)) in
      let (g0, run, weighed) = c.weighed in
      let (built, empty, size) = cycle_init-IsBuilt count g0 small run in
      let g = build count heap first g0 in
      let b =
        build-Built heap (λ q. has q universe ≡ true) (length universe) closed fits count first g0
          built empty (omega arith) few once null sub in
      let same : objects w.nodes ≡ objects g.nodes =
        ap (λ h. objects h.nodes) weighed ∙ weigh-objects heap g b.order.built in
      let os = objects g.nodes in
      let os_null : has 0 os ≡ false = elim (Bool-cases (has 0 os)) [
        | inr z ↦ z
        | inl z ↦ absurd_bool (has 0 universe) no_null (b.order.good 0 z)
      ] in
      let nodes : objects marked.nodes ≡ os = c.nodes ∙ same in
      let live : (j : ℕ)
          → IsLive marked j ↔ Reachable os (owned_edges heap) (IsRoot (weigh heap g)) j =
        subst (λ h. (j : ℕ) → IsLive marked j ↔ Reachable os (owned_edges heap) (IsRoot h) j)
          weighed
          (subst (λ l. (j : ℕ) → IsLive marked j ↔ Reachable l (owned_edges heap) (IsRoot w) j) same
            c.live) in
      let roots : (j : ℕ)
          → j < length os
          → IsRoot (weigh heap g) j ↔ IsAnchor heap os (get_or os j 0) =
        anchors heap g b.order.built b.order.fresh b.order.apart os_null in
      (
        os,
        marked,
        record {
          runs = c.runs;
          nodes = nodes;
          once = b.order.apart;
          among = b.order.good;
          listed = b.listed;
          linked = b.linked;
          reclaimed = λ p. (
            λ h.
                let (j, lt, at, dead) = has-unreached marked.nodes p h in
                let lt' : j < length os =
                  omega (arith, ap length nodes, length-objects marked.nodes) in
                let at' : get_or os j 0 ≡ p =
                  ap (λ l. get_or l j 0) (sym nodes) ∙ sym (get_or-objects marked.nodes j) ∙ at in
                (
                  ap (λ x. has x os) (sym at') ∙ has-get_or os j lt',
                  λ spared. absurd_bool (node marked j).live dead (
                      (live j).1 (
                        Spared-Reachable heap os b.order.apart os_null (IsRoot (weigh heap g)) roots
                          spared j lt' at')),
                ),
            λ (h, out).
                let (j, lt, at) = place_of os p h in
                let lt' : j < length marked.nodes =
                  omega (arith, ap length nodes, length-objects marked.nodes) in
                let at' : (node marked j).object ≡ p =
                  get_or-objects marked.nodes j ∙ ap (λ l. get_or l j 0) nodes ∙ at in
                elim (Bool-cases (node marked j).live) [
                  | inl l ↦ absurd (
                      out (
                        subst (Spared heap os) at (
                          Reachable-Spared heap os b.order.apart os_null (IsRoot (weigh heap g))
                            roots ((live j).0 l))))
                  | inr l ↦
                      ap (λ x. has x (unreached marked.nodes)) (sym at')
                      ∙ unreached-has marked.nodes j lt' l
                ],
          );
        },
      )
