-- ===== src/Collector/Reach.antt =====
-- The queue is worked off until everything that the roots reach is live.
use am_lang_core.Base.{
  ℕ, zero, suc, ◌+◌, ◌-◌, ◌≤◌, ◌<◌, ◌≡◌, ◌≢◌, ◌⊎◌, ◌↔◌, inl, inr, refl, sym, ap, ◌∙◌, true, false,
  List, [], ◌∷◌, ◌++◌, arith, ltb, ltb→lt, ◌==◌, length, get_or, set, Bool-cases, ==_iff,
}
use am_lang_core.Collector.{
  Graph, node, home, locate, mark, cycle_edge, edges_loop, mark_loop, roots_loop, cycle_roots,
}
use am_lang_core.Collector.Table.{objects, position, length-objects, get_or-objects}
use am_lang_core.Collector.Nodes.{IsGraph, locate-position}
use am_lang_core.Collector.Marking.{
  Occurs, Owns, Reachable, root, owned_by, position-lt, live_count, live_count-le, IsLive,
  IsMarking, Grows, Grows-refl, Grows-trans, mark-Marks,
}

-- The node of a pointer, where it has one.
abbrev pub LeadsTo : List ℕ → ℕ → ℕ → Type 0
LeadsTo os p j = (p ≢ 0) × (position os p ≡ suc j)

module _ (is_marked : ℕ → Type 0) (os : List ℕ) where
  -- What visiting the pointers of a list establishes.
  record Visits (g next : Graph) (ps : List ℕ) : Type 0 where
    marking : IsMarking is_marked os next
    grows : Grows g next
    live : (p j : ℕ) → Occurs p ps → LeadsTo os p j → IsLive next j

  module _ (g : Graph) (m : IsMarking is_marked os g) (p : ℕ)
      (ok : (j : ℕ) → LeadsTo os p j → is_marked j) where
    entry_position : p ≢ 0 → locate g.table_size g (home g p) 0 p ≡ position os p
    entry_position ne = locate-position g p m.in_order ne ∙ ap (λ o. position o p) m.same

    -- A pointer of the graph.
    edge_found : (j : ℕ) → p ≢ 0 → position os p ≡ suc j → (cycle_edge g p ≡ mark g j)
    unfolding cycle_edge
    edge_found j ne at =
        let entry = entry_position ne ∙ at in
        let less : suc j - 1 ≡ j = omega arith in ground (arith, m.on)

    edge_passed : (p ≡ 0) ⊎ (position os p ≡ 0) → cycle_edge g p ≡ g
    unfolding cycle_edge
    edge_passed (inl null) = ground arith
    edge_passed (inr out) = elim (Bool-cases (p == 0)) [
      | inl null ↦ ground arith
      | inr ne ↦ let entry = entry_position (λ e. absurd (ground arith)) ∙ out in ground arith
    ]

    edge-Visits : (n : ℕ) → position os p ≡ n → Visits g (cycle_edge g p) (p ∷ [])
    edge-Visits zero at = rw (edge_passed (inr at)) (record {
      marking = m;
      grows = Grows-refl g;
      live = λ q j occurs leads.
          absurd (elim occurs [
            | inl e ↦ absurd (omega (arith, ap (position os) e, leads.1))
            | inr f ↦ f
          ]);
    })
    edge-Visits (suc j) at = elim (Bool-cases (p == 0)) [
      | inl null ↦ rw (edge_passed (inl ((==_iff p 0).0 null))) (record {
        marking = m;
        grows = Grows-refl g;
        live = λ q k occurs leads.
            absurd (elim occurs [ inl e ↦ leads.0 (e ∙ (==_iff p 0).0 null) | inr f ↦ f ]);
      })
      | inr some_object ↦
          let ne : p ≢ 0 = λ e. absurd (ground arith) in
          let room : j < length g.nodes =
            omega (arith, position-lt os p j at, ap length m.same, length-objects g.nodes) in
          let s = mark-Marks is_marked os g m j room (ok j (ne, at)) in
          rw (edge_found j ne at) (record {
            marking = s.marking;
            grows = s.grows;
            live = λ q k occurs leads. elim occurs [
              | inl e ↦
                  let same : k ≡ j = omega (arith, ap (position os) e, leads.1) in rw same s.live
              | inr f ↦ absurd f
            ];
          })
    ]

  edges_loop-Visits :
      (ps : List ℕ) (g : Graph)
      → IsMarking is_marked os g
      → ((p j : ℕ) → Occurs p ps → LeadsTo os p j → is_marked j)
      → Visits g (edges_loop g ps) ps
  unfolding edges_loop
  edges_loop-Visits [] g m ok = record {
    marking = m;
    grows = Grows-refl g;
    live = λ p j occurs leads. absurd occurs;
  }
  edges_loop-Visits (p ∷ ps) g m ok =
      let first = edge-Visits g m p (λ j l. ok p j (inl refl) l) (position os p) refl in
      let rest =
        edges_loop-Visits ps (cycle_edge g p) first.marking (λ q j o l. ok q j (inr o) l) in
      record {
        marking = rest.marking;
        grows = Grows-trans first.grows rest.grows;
        live = λ q j occurs leads. elim occurs [
          | inl e ↦ rest.grows.keeps j (first.live q j (inl e) leads)
          | inr later ↦ rest.live q j later leads
        ];
      }

module _ (os : List ℕ) (owned : ℕ → List ℕ) (is_root : ℕ → Type 0) where
  abbrev Reached : ℕ → Type 0
  Reached = Reachable os owned is_root

  -- What the nodes in the first `i` places of the queue own is live.
  Done : Graph → ℕ → Type 0
  Done g i =
      (k : ℕ)
      → k < i
      → k < length g.queue
      → (p j : ℕ) → Occurs p (owned (get_or os (get_or g.queue k 0) 0))
      → LeadsTo os p j
      → IsLive g j

  -- The end of the marking.
  record Closed (g next : Graph) : Type 0 where
    marking : IsMarking Reached os next
    grows : Grows g next
    closed : (i j : ℕ) → IsLive next i → Owns os owned i j → IsLive next j

  end-Closed :
      (g : Graph) (i : ℕ) → IsMarking Reached os g → Done g i → length g.queue ≤ i → Closed g g
  unfolding Done
  end-Closed g i m done past = record {
    marking = m;
    grows = Grows-refl g;
    closed = λ a b live owns.
        let q = m.queued a live in
        done q.place (omega (arith, q.room)) q.room owns.pointer b (rw q.holds owns.among)
          (owns.non_null, owns.leads);
  }

  visit-Visits :
      (g : Graph) (i : ℕ) (m : IsMarking Reached os g) (room : i < length g.queue)
      → Visits Reached os g
          (edges_loop g (owned (node g (get_or g.queue i 0)).object))
          (owned (get_or os (get_or g.queue i 0) 0))
  visit-Visits g i m room =
      let q = get_or g.queue i 0 in
      let same : (node g q).object ≡ get_or os q 0 =
        get_or-objects g.nodes q ∙ ap (λ o. get_or o q 0) m.same in
      rw same (
        edges_loop-Visits Reached os (owned (get_or os q 0)) g m (λ p j occurs leads.
          owned_by (m.sound q (m.listed i room))
            (record { pointer = p; non_null = leads.0; among = occurs; leads = leads.1 })))

  Done-next :
      (g : Graph) (i : ℕ) (m : IsMarking Reached os g) (room : i < length g.queue) (next : Graph)
      → Visits Reached os g next (owned (get_or os (get_or g.queue i 0) 0))
      → Done g i
      → Done next (suc i)
  unfolding Done
  Done-next g i m room next v done k lt inside p j occurs leads =
      let there : get_or next.queue k 0 ≡ get_or g.queue k 0 = v.grows.prefix k (omega arith) in
      elim (Bool-cases (k == i)) [
        | inl last ↦
            v.live p j (rw (there ∙ ap (λ q. get_or g.queue q 0) ((==_iff k i).0 last)) at occurs)
              leads
        | inr before ↦
            v.grows.keeps j (done k (ground arith) (omega arith) p j (rw there at occurs) leads)
      ]

  mark_loop-Closed :
      (fuel i : ℕ) (g : Graph)
      → IsMarking Reached os g
      → Done g i
      → length g.nodes ≤ i + fuel
      → Closed g (mark_loop fuel i owned g)
  unfolding mark_loop
  mark_loop-Closed zero i g m done fits =
      end-Closed g i m done (omega (arith, live_count-le g.nodes, m.counted))
  mark_loop-Closed (suc fuel) i g m done fits = elim (Bool-cases (ltb i (length g.queue))) [
    | inr past ↦ rw past (end-Closed g i m done (ground arith))
    | inl more ↦
        let room = ltb→lt _ _ more in
        let v = visit-Visits g i m room in
        let next = edges_loop g (owned (node g (get_or g.queue i 0)).object) in
        let rest = mark_loop-Closed fuel (suc i) next v.marking (Done-next g i m room next v done) (
          omega (
            arith,
            length-objects g.nodes,
            length-objects next.nodes,
            ap length m.same,
            ap length v.marking.same,
          )) in
        rw more (record {
          marking = rest.marking;
          grows = Grows-trans v.grows rest.grows;
          closed = rest.closed;
        })
  ]

-- A graph whose edges are counted and where nothing is marked.
pub record IsUnmarked (g : Graph) : Type 0 where
  pub in_order : IsGraph g
  pub dead : (j : ℕ) → (node g j).live ≡ false
  pub none_live : live_count g.nodes ≡ 0
  pub waiting : g.queue ≡ []

-- More owners than the ones in the graph, or a count that does not fit.
abbrev pub IsRoot : Graph → ℕ → Type 0
IsRoot g j = (node g j).references ≢ (node g j).internal

module _ (owned : ℕ → List ℕ) (g : Graph) (u : IsUnmarked g) where
  abbrev Marked : ℕ → Type 0
  Marked = Reachable (objects g.nodes) owned (IsRoot g)

  started : Graph
  started = record g { marking = true }

  started-IsMarking : IsMarking Marked (objects g.nodes) started
  unfolding started
  started-IsMarking = record {
    in_order = u.in_order;
    same = refl;
    on = refl;
    queued = λ j l. absurd (ground (arith, u.dead j));
    listed = λ k h. absurd (omega (arith, ap length u.waiting));
    counted = omega (arith, u.none_live, ap length u.waiting);
    sound = λ j l. absurd (ground (arith, u.dead j));
  }

  mark_dead :
      (h : Graph) (i : ℕ)
      → (node h i).live ≡ false
      → mark h i ≡ record h {
        nodes = set h.nodes i (record (node h i) { live = true });
        queue = h.queue ++ i ∷ [];
      }
  unfolding mark
  mark_dead h i dead = rw dead refl

  record Rooted (h : Graph) : Type 0 where
    marking : IsMarking Marked (objects g.nodes) h
    roots : (j : ℕ) → j < length g.nodes → IsRoot g j → IsLive h j

  roots_loop-Rooted :
      (left i : ℕ) (h : Graph)
      → IsMarking Marked (objects g.nodes) h
      → i + left ≡ length g.nodes
      → ((j : ℕ) → i ≤ j → node h j ≡ node g j)
      → ((j : ℕ) → j < i → IsRoot g j → IsLive h j)
      → Rooted (roots_loop left i h)
  unfolding roots_loop
  roots_loop-Rooted zero i h m fits rest before = record {
    marking = m;
    roots = λ j lt r. before j (omega arith) r;
  }
  roots_loop-Rooted (suc left) i h m fits rest before =
      elim (Bool-cases ((node h i).references == (node h i).internal)) [
        | inl equal ↦ rw equal (
            roots_loop-Rooted left (suc i) h m (omega arith) (λ j le. rest j (omega arith))
              (λ j lt r. elim (Bool-cases (j == i)) [
                | inl same ↦ absurd (
                    r (
                      rw ((==_iff j i).0 same) (
                        ap (λ n. n.references) (sym (rest i (omega arith)))
                        ∙ (==_iff _ _).0 equal
                        ∙ ap (λ n. n.internal) (rest i (omega arith)))))
                | inr other ↦ before j (ground arith) r
              ]))
        | inr differ ↦
            let here : node h i ≡ node g i = rest i (omega arith) in
            let dead : (node h i).live ≡ false = ap (λ n. n.live) here ∙ u.dead i in
            let is_root : IsRoot g i = λ e.
              absurd (ground (arith, ap (λ n. n.references) here, ap (λ n. n.internal) here)) in
            let s =
              mark-Marks Marked (objects g.nodes) h m i
                (omega (arith, ap length m.same, length-objects g.nodes, length-objects h.nodes))
                (root (omega (arith, length-objects g.nodes)) is_root) in
            rw (differ, sym (mark_dead h i dead))
              (roots_loop-Rooted left (suc i) (mark h i) s.marking (omega arith)
                (λ j le. s.others j (λ e. absurd (omega arith)) ∙ rest j (omega arith))
                (λ j lt r. elim (Bool-cases (j == i)) [
                  | inl same ↦ rw ((==_iff j i).0 same) s.live
                  | inr other ↦ s.grows.keeps j (before j (ground arith) r)
                ]))
      ]

  cycle_roots-Rooted : Rooted (cycle_roots g)
  unfolding cycle_roots started
  cycle_roots-Rooted =
      roots_loop-Rooted (length g.nodes) 0 started started-IsMarking (omega arith) (λ j le. refl)
        (λ j lt r. absurd (omega arith))

  marking_ends :
      Closed
        (objects g.nodes)
        owned
        (IsRoot g)
        (cycle_roots g)
        (mark_loop (length g.nodes) 0 owned (cycle_roots g))
  unfolding Done
  marking_ends =
      let m = cycle_roots-Rooted.marking in
      mark_loop-Closed (objects g.nodes) owned (IsRoot g) (length g.nodes) 0 (cycle_roots g) m
        (λ k lt. absurd (omega arith))
        (omega
          (arith, ap length m.same, length-objects g.nodes, length-objects (cycle_roots g).nodes))

  complete : {j : ℕ} → Marked j → IsLive (mark_loop (length g.nodes) 0 owned (cycle_roots g)) j
  complete {j} (root room r) =
      marking_ends.grows.keeps j
        (cycle_roots-Rooted.roots j (omega (arith, length-objects g.nodes)) r)
  complete {j} (owned_by {i} from owns) = marking_ends.closed i j (complete from) owns

  pub mark_loop-objects :
      objects (mark_loop (length g.nodes) 0 owned (cycle_roots g)).nodes ≡ objects g.nodes
  mark_loop-objects = marking_ends.marking.same

  -- With as many rounds as there are nodes the marking ends, and a node is live then exactly when it
  -- is a root or can be reached from one by owning pointers. What is not live is what the collector
  -- reclaims, so nothing that a root reaches is reclaimed, and every cycle that none reaches is.
  pub mark_loop-Reachable :
      (j : ℕ)
      → IsLive (mark_loop (length g.nodes) 0 owned (cycle_roots g)) j
        ↔ Reachable (objects g.nodes) owned (IsRoot g) j
  mark_loop-Reachable j = (marking_ends.marking.sound j, complete)
