-- ===== src/Collection/Nodes.antt =====
-- The two loops of `Am_Lang_GC_collect_0` that add nodes: which objects are in the graph.
use am_lang_core.Base.{
  ℕ, zero, suc, ◌+◌, ◌<◌, ◌≤◌, ◌≡◌, ◌≢◌, refl, sym, ap, ◌∙◌, true, false, List, [], ◌∷◌, ◌++◌,
  arith, not, ◌&&◌, ◌==◌, inl, inr, All, Bool-cases, ==_iff, length, length-append, get_or, ltb,
  ◌||◌,
}
use am_lang_core.Collector.{Node, Graph, node, cycle_add, cycle_contains}
use am_lang_core.Collector.Table.{
  objects, length-objects, get_or-objects, objects-snoc, get_or-snoc,
}
use am_lang_core.Collector.Nodes.{locate-position}
use am_lang_core.Collector.Collect.{
  Heap, references_of, add_objects, add_implementation, implementations_loop, build, is_interface,
}
use am_lang_core.Collector.Collect.Build.{IsBuilt, cycle_add-IsBuilt}
use am_lang_core.Counting.Chain.{has, Distinct}
use am_lang_core.Collection.Lists.{
  position_none, position_some, position_missing, has-append, has-get_or, Distinct-snoc, place_of,
}

-- A node as it was added.
abbrev pub IsFresh : Heap → Node → Type 0
IsFresh heap n = (n.references ≡ references_of heap n.object) × (n.internal ≡ 0)

All-snoc : (P : Node → Type 0) (ns : List Node) (n : Node) → All P ns → P n → All P (ns ++ n ∷ [])
All-snoc P [] n all p = (p, tt)
All-snoc P (m ∷ ns) n all p = (all.0, All-snoc P ns n all.1 p)

-- What an interface wrapper wraps is in the graph too, unless it is immortal.
abbrev pub IsLinked : Heap → Graph → ℕ → Type 0
IsLinked heap g q =
    is_interface (heap q).type_of_class ≡ true
    → (heap q).implementation_object ≢ 0
    → (heap (heap q).implementation_object).immortal ≡ false
    → has (heap q).implementation_object (objects g.nodes) ≡ true

-- The graph grows at its end.
pub record Extends (g g' : Graph) : Type 0 where
  pub keeps : (q : ℕ) → has q (objects g.nodes) ≡ true → has q (objects g'.nodes) ≡ true
  pub prefix :
      (k : ℕ) → k < length g.nodes → get_or (objects g'.nodes) k 0 ≡ get_or (objects g.nodes) k 0
  pub longer : length g.nodes ≤ length g'.nodes

Extends-refl : (g : Graph) → Extends g g
Extends-refl g = record { keeps = λ q h. h; prefix = λ k lt. refl; longer = omega arith }

Extends-trans : (g h k : Graph) → Extends g h → Extends h k → Extends g k
Extends-trans g h k a b = record {
  keeps = λ q x. b.keeps q (a.keeps q x);
  prefix = λ j lt. b.prefix j (omega (arith, a.longer)) ∙ a.prefix j lt;
  longer = omega (arith, a.longer, b.longer);
}

cycle_add-objects :
    (g : Graph) (p refs : ℕ) → objects (cycle_add g p refs).nodes ≡ objects g.nodes ++ p ∷ []
unfolding cycle_add
cycle_add-objects g p refs =
    objects-snoc g.nodes (record { object = p; references = refs; internal = 0; live = false })

cycle_add-Extends : (g : Graph) (p refs : ℕ) → Extends g (cycle_add g p refs)
unfolding cycle_add
cycle_add-Extends g p refs =
    let added : Node = record { object = p; references = refs; internal = 0; live = false } in
    let e = cycle_add-objects g p refs in
    record {
      keeps = λ q h. ap (has q) e ∙ has-append q (objects g.nodes) (p ∷ []) ∙ rw h refl;
      prefix = λ k lt.
          ap (λ os. get_or os k 0) e
          ∙ get_or-snoc (objects g.nodes) p k (omega (arith, length-objects g.nodes));
      longer = omega (arith, length-append g.nodes (added ∷ []));
    }

-- `P` holds of every object that may come into the graph, and at most `bound` objects meet it.
module _ (heap : Heap) (P : ℕ → Type 0) (bound : ℕ)
    (step : (q : ℕ)
      → P q
      → is_interface (heap q).type_of_class ≡ true
      → (heap q).implementation_object ≢ 0
      → (heap (heap q).implementation_object).immortal ≡ false
      → P (heap q).implementation_object)
    (fits : (os : List ℕ)
      → Distinct os
      → ((q : ℕ) → has q os ≡ true → P q)
      → length os ≤ bound) where
  pub record InOrder (g : Graph) : Type 0 where
    pub built : IsBuilt g
    pub apart : Distinct (objects g.nodes)
    pub good : (q : ℕ) → has q (objects g.nodes) ≡ true → P q
    pub fresh : All (IsFresh heap) g.nodes
    pub size : bound ≤ g.table_size

  cycle_add-InOrder :
      (g : Graph) (p : ℕ)
      → InOrder g
      → p ≢ 0
      → has p (objects g.nodes) ≡ false
      → P p
      → InOrder (cycle_add g p (references_of heap p))
  unfolding cycle_add
  cycle_add-InOrder g p o ne new ok =
      let refs = references_of heap p in
      let added : Node = record { object = p; references = refs; internal = 0; live = false } in
      let e = cycle_add-objects g p refs in
      let apart = Distinct-snoc (objects g.nodes) p o.apart new in
      let good : (q : ℕ) → has q (objects g.nodes ++ p ∷ []) ≡ true → P q = λ q h.
        elim (Bool-cases (q == p)) [
          | inl same ↦ rw ((==_iff q p).0 same) ok
          | inr other ↦ o.good q (ground (arith, has-append q (objects g.nodes) (p ∷ [])))
        ] in
      let room = fits (objects g.nodes ++ p ∷ []) apart good in
      record {
        built = cycle_add-IsBuilt g p refs o.built ne (position_missing (objects g.nodes) p new) (
            omega
              (arith, o.size, length-append (objects g.nodes) (p ∷ []), length-objects g.nodes));
        apart = rw e apart;
        good = rw e good;
        fresh = All-snoc (IsFresh heap) g.nodes added o.fresh (refl, refl);
        size = o.size;
      }

  add_objects_lem :
      (ps : List ℕ) (g : Graph)
      → InOrder g
      → Distinct ps
      → has 0 ps ≡ false
      → ((p : ℕ) → has p ps ≡ true → (has p (objects g.nodes) ≡ false) × P p)
      → InOrder (add_objects heap ps g)
        × ((q : ℕ)
            → has q (objects (add_objects heap ps g).nodes) ≡ (has q (objects g.nodes) || has q ps))
  unfolding add_objects
  add_objects_lem [] g o d z new = (o, λ q. ground arith)
  add_objects_lem (p ∷ ps) g o d z new =
      let refs = references_of heap p in
      let here = new p (ground arith) in
      let next = cycle_add-InOrder g p o (λ e. absurd (ground arith)) here.0 here.1 in
      let e = cycle_add-objects g p refs in
      let (order, members) = add_objects_lem ps (cycle_add g p refs) next d.1 (ground arith) (λ q h.
        let (free, ok) = new q (ground arith) in
        (ap (has q) e ∙ has-append q (objects g.nodes) (p ∷ []) ∙ ground (arith, d.0), ok)) in
      (
        order,
        λ q.
            members q
            ∙ ap (λ b. b || has q ps) (ap (has q) e ∙ has-append q (objects g.nodes) (p ∷ []))
            ∙ ground arith,
      )

  contains_has :
      (g : Graph) (p : ℕ) → IsBuilt g → p ≢ 0 → cycle_contains g p ≡ has p (objects g.nodes)
  unfolding cycle_contains
  contains_has g p b ne = ground (
    arith,
    locate-position g p b.in_order ne,
    position_none (objects g.nodes) p,
    position_some (objects g.nodes) p,
  )

  record Adds (g : Graph) (q : ℕ) (g' : Graph) : Type 0 where
    order : InOrder g'
    extends : Extends g g'
    linked : IsLinked heap g' q

  add_implementation-Adds :
      (g : Graph) (q : ℕ) → InOrder g → P q → Adds g q (add_implementation heap g q)
  unfolding add_implementation
  add_implementation-Adds g q o ok =
      let impl = (heap q).implementation_object in
      elim (Bool-cases (
        is_interface (heap q).type_of_class
        && not (impl == 0)
        && not (heap impl).immortal
        && not (cycle_contains g impl))) [
          | inl new ↦
              let ne : impl ≢ 0 = λ e. absurd (ground arith) in
              let free : has impl (objects g.nodes) ≡ false =
                ground (arith, contains_has g impl o.built ne) in
              let e = cycle_add-objects g impl (references_of heap impl) in
              rw new (record {
                order =
                    cycle_add-InOrder g impl o ne free (step q ok (ground arith) ne (ground arith));
                extends = cycle_add-Extends g impl (references_of heap impl);
                linked = λ i n x.
                    ap (has impl) e ∙ has-append impl (objects g.nodes) (impl ∷ []) ∙ ground arith;
              })
          | inr passed ↦ rw passed (record {
            order = o;
            extends = Extends-refl g;
            linked = λ i n x. ground (arith, contains_has g impl o.built n);
          })
        ]

  -- The graph after the loops.
  pub record Grown (g g' : Graph) : Type 0 where
    pub order : InOrder g'
    pub extends : Extends g g'
    pub linked : (k : ℕ) → k < length g'.nodes → IsLinked heap g' (get_or (objects g'.nodes) k 0)

  implementations_loop-Grown :
      (fuel i : ℕ) (g : Graph)
      → InOrder g
      → ((k : ℕ) → k < i → k < length g.nodes → IsLinked heap g (get_or (objects g.nodes) k 0))
      → bound ≤ i + fuel
      → Grown g (implementations_loop fuel i heap g)
  unfolding implementations_loop
  implementations_loop-Grown zero i g o done enough = record {
    order = o;
    extends = Extends-refl g;
    linked = λ k lt.
        done k (omega (arith, fits (objects g.nodes) o.apart o.good, length-objects g.nodes)) lt;
  }
  implementations_loop-Grown (suc fuel) i g o done enough =
      elim (Bool-cases (ltb i (length g.nodes))) [
        | inr past ↦ rw past (record {
          order = o;
          extends = Extends-refl g;
          linked = λ k lt. done k (ground arith) lt;
        })
        | inl more ↦
            let at = get_or-objects g.nodes i in
            let room : i < length (objects g.nodes) = ground (arith, length-objects g.nodes) in
            let q = (node g i).object in
            let ok : P q =
              rw at (o.good (get_or (objects g.nodes) i 0) (has-get_or (objects g.nodes) i room)) in
            let a = add_implementation-Adds g q o ok in
            let next = add_implementation heap g q in
            let rest =
              implementations_loop-Grown fuel (suc i) next a.order
                (λ k lt size. elim (Bool-cases (k == i)) [
                  | inl same ↦
                      rw ((==_iff k i).0 same, a.extends.prefix i (ground arith), sym at) a.linked
                  | inr other ↦
                      let older : k < length g.nodes = ground arith in
                      rw (a.extends.prefix k older)
                        (λ x n y. a.extends.keeps _ (done k (ground arith) older x n y))
                ])
                (omega arith) in
            rw more (record {
              order = rest.order;
              extends =
                  Extends-trans g next (implementations_loop fuel (suc i) heap next) a.extends
                    rest.extends;
              linked = rest.linked;
            })
      ]

  -- The graph holds the objects of the list, everything in it meets `P`, and the implementations
  -- behind its wrappers are in it.
  pub record Built (ps : List ℕ) (g : Graph) : Type 0 where
    pub order : InOrder g
    pub listed : (q : ℕ) → has q ps ≡ true → has q (objects g.nodes) ≡ true
    pub linked : (q : ℕ) → has q (objects g.nodes) ≡ true → IsLinked heap g q

  pub build-Built :
      (fuel : ℕ) (ps : List ℕ) (g : Graph)
      → IsBuilt g
      → g.nodes ≡ []
      → bound ≤ g.table_size
      → bound ≤ fuel
      → Distinct ps
      → has 0 ps ≡ false
      → ((p : ℕ) → has p ps ≡ true → P p)
      → Built ps (build fuel heap ps g)
  unfolding build
  build-Built fuel ps g b empty size enough d z ok =
      let start : InOrder g = record {
        built = b;
        apart = rw empty tt;
        good = λ q h. absurd (cc (h, empty));
        fresh = rw empty tt;
        size = size;
      } in
      let (order, members) =
        add_objects_lem ps g start d z (λ p h. (ap (λ ns. has p (objects ns)) empty, ok p h)) in
      let filled = add_objects heap ps g in
      let grown =
        implementations_loop-Grown fuel 0 filled order (λ k lt. absurd (omega arith))
          (omega arith) in
      record {
        order = grown.order;
        listed = λ q h. grown.extends.keeps q (members q ∙ ground arith);
        linked = λ q h.
            let final = implementations_loop fuel 0 heap filled in
            let (k, lt, at) = place_of (objects final.nodes) q h in
            rw (sym at) (grown.linked k (omega (arith, length-objects final.nodes)));
      }
