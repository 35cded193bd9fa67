-- ===== src/Collector/Marking.antt =====
-- Marking finds exactly what can be reached from the roots.
use am_lang_core.Base.{
  ℕ, zero, suc, ◌+◌, ◌≤◌, ◌<◌, ◌≡◌, ◌≢◌, ◌⊎◌, inl, inr, refl, sym, ap, ◌∙◌, true, false, List, [],
  ◌∷◌, ◌++◌, arith, ltb, ◌==◌, if◌then◌else◌, length, length-append, get_or, set, Bool-cases,
  ==_iff,
}
use am_lang_core.Collector.{Node, no_node, Graph, node, mark}
use am_lang_core.Collector.Table.{objects, position}
use am_lang_core.Collector.Nodes.{IsGraph}

-- The pointer stands in the list.
abbrev pub Occurs : ℕ → List ℕ → Type 0
Occurs p [] = ⊥
Occurs p (q ∷ ps) = (p ≡ q) ⊎ Occurs p ps

-- The object of one node owns the object of the other.
pub record Owns (os : List ℕ) (owned : ℕ → List ℕ) (i j : ℕ) : Type 0 where
  pub pointer : ℕ
  pub non_null : pointer ≢ 0
  pub among : Occurs pointer (owned (get_or os i 0))
  pub leads : position os pointer ≡ suc j

-- From a root by owning pointers.
pub data Reachable (os : List ℕ) (owned : ℕ → List ℕ) (is_root : ℕ → Type 0) : ℕ → Type 0 where
  root : {j : ℕ} → j < length os → is_root j → Reachable os owned is_root j
  owned_by :
      {i j : ℕ} → Reachable os owned is_root i → Owns os owned i j → Reachable os owned is_root j

pub position-lt : (os : List ℕ) (p j : ℕ) → position os p ≡ suc j → j < length os
position-lt [] p j h = absurd (omega arith)
position-lt (o ∷ os) p zero h = omega arith
position-lt (o ∷ os) p (suc j) h = ground (arith, position-lt os p j)

abbrev pub live_count : List Node → ℕ
live_count [] = 0
live_count (n ∷ ns) = (if n.live then 1 else 0) + live_count ns

pub live_count-le : (ns : List Node) → live_count ns ≤ length ns
live_count-le [] = omega arith
live_count-le (n ∷ ns) = ground (arith, live_count-le ns)

live_count-set :
    (ns : List Node) (i : ℕ) (n : Node)
    → i < length ns
    → (get_or ns i no_node).live ≡ false
    → n.live ≡ true
    → live_count (set ns i n) ≡ live_count ns + 1
live_count-set [] i n room dead alive = absurd (omega arith)
live_count-set (m ∷ ns) zero n room dead alive = ground arith
live_count-set (m ∷ ns) (suc i) n room dead alive = ground (arith, live_count-set ns i n)

pub get_or-set :
    (ns : List Node) (i k : ℕ) (n : Node)
    → i < length ns
    → get_or (set ns i n) k no_node ≡ (if k == i then n else get_or ns k no_node)
get_or-set [] i k n room = absurd (omega arith)
get_or-set (m ∷ ns) zero zero n room = refl
get_or-set (m ∷ ns) zero (suc k) n room = ground arith
get_or-set (m ∷ ns) (suc i) zero n room = ground arith
get_or-set (m ∷ ns) (suc i) (suc k) n room = ground (arith, get_or-set ns i k n)

pub objects-set :
    (ns : List Node) (i : ℕ) (n : Node)
    → n.object ≡ (get_or ns i no_node).object
    → objects (set ns i n) ≡ objects ns
objects-set [] i n e = refl
objects-set (m ∷ ns) zero n e = ap (λ o. o ∷ objects ns) e
objects-set (m ∷ ns) (suc i) n e = ap (λ os. m.object ∷ os) (objects-set ns i n e)

get_or-push : (q : List ℕ) (x k : ℕ) → k < length q → get_or (q ++ x ∷ []) k 0 ≡ get_or q k 0
get_or-push [] x k room = absurd (omega arith)
get_or-push (y ∷ q) x zero room = refl
get_or-push (y ∷ q) x (suc k) room = get_or-push q x k (omega arith)

get_or-push_last : (q : List ℕ) (x : ℕ) → get_or (q ++ x ∷ []) (length q) 0 ≡ x
get_or-push_last [] x = refl
get_or-push_last (y ∷ q) x = get_or-push_last q x

abbrev pub IsLive : Graph → ℕ → Type 0
IsLive g j = (node g j).live ≡ true

-- The queue place of a live node.
pub record Queued (g : Graph) (j : ℕ) : Type 0 where
  pub place : ℕ
  pub room : place < length g.queue
  pub holds : get_or g.queue place 0 ≡ j

-- The state of the marking, `is_marked` being what the nodes in it may be.
pub record IsMarking (is_marked : ℕ → Type 0) (os : List ℕ) (g : Graph) : Type 0 where
  pub in_order : IsGraph g
  pub same : objects g.nodes ≡ os
  pub on : g.marking ≡ true
  pub queued : (j : ℕ) → IsLive g j → Queued g j
  pub listed : (k : ℕ) → k < length g.queue → IsLive g (get_or g.queue k 0)
  pub counted : live_count g.nodes ≡ length g.queue
  pub sound : (j : ℕ) → IsLive g j → is_marked j

-- Marking only adds.
pub record Grows (g next : Graph) : Type 0 where
  pub keeps : (j : ℕ) → IsLive g j → IsLive next j
  pub prefix : (k : ℕ) → k < length g.queue → get_or next.queue k 0 ≡ get_or g.queue k 0
  pub longer : length g.queue ≤ length next.queue

pub Grows-refl : (g : Graph) → Grows g g
Grows-refl g = record { keeps = λ j l. l; prefix = λ k h. refl; longer = omega arith }

pub Grows-trans : {g h k : Graph} → Grows g h → Grows h k → Grows g k
Grows-trans a b = record {
  keeps = λ j l. b.keeps j (a.keeps j l);
  prefix = λ k h. b.prefix k (omega (arith, a.longer)) ∙ a.prefix k h;
  longer = omega (arith, a.longer, b.longer);
}

module _ (is_marked : ℕ → Type 0) (os : List ℕ) where
  -- What one step establishes about a node.
  pub record Marks (g next : Graph) (j : ℕ) : Type 0 where
    pub marking : IsMarking is_marked os next
    pub grows : Grows g next
    pub live : IsLive next j
    pub others : (k : ℕ) → k ≢ j → node next k ≡ node g k

  module _ (g : Graph) (m : IsMarking is_marked os g) (j : ℕ) (room : j < length g.nodes)
      (ok : is_marked j) where
    marked_node : Node
    marked_node = record (node g j) { live = true }

    marked : Graph
    marked = record g { nodes = set g.nodes j marked_node; queue = g.queue ++ j ∷ [] }

    marked_at : (k : ℕ) → node marked k ≡ (if k == j then marked_node else node g k)
    unfolding marked
    marked_at k = get_or-set g.nodes j k marked_node room

    marked-Queued : (k : ℕ) → IsLive marked k → Queued marked k
    unfolding marked marked_node
    marked-Queued k l = elim (Bool-cases (k == j)) [
      | inl same ↦ record {
        place = length g.queue;
        room = omega (arith, length-append g.queue (j ∷ []));
        holds = get_or-push_last g.queue j ∙ sym ((==_iff k j).0 same);
      }
      | inr other ↦
          let q = m.queued k (ground (arith, marked_at k)) in
          record {
            place = q.place;
            room = omega (arith, q.room, length-append g.queue (j ∷ []));
            holds = get_or-push g.queue j q.place q.room ∙ q.holds;
          }
    ]

    marked_listed : (k : ℕ) → k < length marked.queue → IsLive marked (get_or marked.queue k 0)
    unfolding marked marked_node
    marked_listed k h = elim (Bool-cases (ltb k (length g.queue))) [
      | inl old ↦
          ground (arith, get_or-push g.queue j k, m.listed k, marked_at (get_or g.queue k 0))
      | inr last ↦
          let e : k ≡ length g.queue = ground (arith, length-append g.queue (j ∷ [])) in
          rw (e, get_or-push_last g.queue j) (ground (arith, marked_at j))
    ]

    marked_sound : (k : ℕ) → IsLive marked k → is_marked k
    unfolding marked marked_node
    marked_sound k l = elim (Bool-cases (k == j)) [
      | inl same ↦ rw ((==_iff k j).0 same) ok
      | inr other ↦ m.sound k (ground (arith, marked_at k))
    ]

    marked-Marks : (node g j).live ≡ false → Marks g marked j
    unfolding marked marked_node
    marked-Marks dead =
        let same_objects = objects-set g.nodes j marked_node refl in
        record {
          marking = record {
            in_order = rw same_objects m.in_order;
            same = same_objects ∙ m.same;
            on = m.on;
            queued = marked-Queued;
            listed = marked_listed;
            counted =
                live_count-set g.nodes j marked_node room dead refl
                ∙ omega (arith, m.counted, length-append g.queue (j ∷ []));
            sound = marked_sound;
          };
          grows = record {
            keeps = λ k l. ground (arith, marked_at k);
            prefix = λ k h. get_or-push g.queue j k h;
            longer = omega (arith, length-append g.queue (j ∷ []));
          };
          live = ground (arith, marked_at j);
          others = λ k ne. marked_at k ∙ ground arith;
        }

    pub mark-Marks : Marks g (mark g j) j
    unfolding mark marked marked_node
    mark-Marks = elim (Bool-cases (node g j).live) [
      | inl live ↦
          rw live (record { marking = m; grows = Grows-refl g; live = live; others = λ k ne. refl })
      | inr dead ↦ rw dead (marked-Marks dead)
    ]
