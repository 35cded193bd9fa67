-- ===== src/Collector.antt =====
-- The cycle collector's reachability analysis: src/native-c/libc/gc_graph.h, and the part of
-- `Am_Lang_GC_collect_0` of src/native-c/libc/Am/Lang/GC.c up to the choice of what to reclaim.
-- Pointers are numbers and the null pointer is 0. `& (table_size - 1)` is written as a remainder,
-- since the size is a power of two. `queued` is the length of the queue. The counters do not wrap.
pub mod Table
pub mod Nodes
pub mod Marking
pub mod Reach
pub mod Collect
mod Tests
use am_lang_core.Base.{
  ℕ, zero, suc, ◌+◌, ◌-◌, ◌*◌, ◌/◌, ◌%◌, ◌^◌, bit_xor, Bool, true, false, not, ◌&&◌, ◌||◌, Option,
  none, some, List, [], ◌∷◌, ◌++◌, ltb, leb, ◌==◌, if◌then◌else◌, length, get_or, get_elem?, set,
  replicate,
}
use am_lang_core.Values.{NullableValue, is_primitive}

pub record Node : Type 0 where
  pub object : ℕ
  pub references : ℕ
  pub internal : ℕ
  pub live : Bool

abbrev pub no_node : Node
no_node = record { object = 0; references = 0; internal = 0; live = false }

-- `nodes` holds the nodes that were added, `count` of them.
pub record Graph : Type 0 where
  pub nodes : List Node
  pub table : List ℕ
  pub table_size : ℕ
  pub queue : List ℕ
  pub marking : Bool

abbrev pub node : Graph → ℕ → Node
node g i = get_or g.nodes i no_node

unfoldable pub cycle_hash : ℕ → ℕ
cycle_hash p =
    let v0 = p / 2 ^ 3 in
    let v1 = bit_xor v0 (v0 / 2 ^ 30) * 0xbf58476d1ce4e5b9 % 2 ^ 64 in bit_xor v1 (v1 / 2 ^ 27)

-- `while (table_size < count * 2) table_size *= 2`, at most 64 rounds.
pub table_size_loop : ℕ → ℕ → ℕ → ℕ
table_size_loop zero count size = size
table_size_loop (suc fuel) count size =
    table_size_loop fuel count (if ltb size (count * 2) then size * 2 else size)

-- `cycle_init`, `memory` being whether the workspace was allocated.
unfoldable pub cycle_init : (memory : Bool) → ℕ → Option Graph
unfolding table_size_loop
cycle_init memory count =
    let size = table_size_loop 64 count 16 in
    if memory
    then some (record {
      nodes = [];
      table = replicate size 0;
      table_size = size;
      queue = [];
      marking = false;
    })
    else none

abbrev pub home : Graph → ℕ → ℕ
home g p = cycle_hash p % g.table_size

-- `while (g->table[slot]) slot = (slot + 1) & mask`, and the write behind it. Each round is one slot
-- of the table.
unfoldable pub place : ℕ → List ℕ → (size h i entry : ℕ) → List ℕ
place zero table size h i entry = table
place (suc fuel) table size h i entry =
    let rest = place fuel table size h (i + 1) entry in
    if get_or table ((h + i) % size) 0 == 0 then set table ((h + i) % size) entry else rest

-- `cycle_add(g, g->count++, p, refs)`
unfoldable pub cycle_add : Graph → ℕ → ℕ → Graph
cycle_add g p refs = record g {
  nodes = g.nodes ++ record { object = p; references = refs; internal = 0; live = false } ∷ [];
  table = place g.table_size g.table g.table_size (home g p) 0 (length g.nodes + 1);
}

-- The loop that `cycle_contains` and `cycle_edge` share: the number of the node, plus one, or 0.
unfoldable pub locate : ℕ → Graph → (h i p : ℕ) → ℕ
locate zero g h i p = 0
locate (suc fuel) g h i p =
    let entry = get_or g.table ((h + i) % g.table_size) 0 in
    let rest = locate fuel g h (i + 1) p in
    if entry == 0
    then 0
    else if (get_or g.nodes (entry - 1) no_node).object == p
    then entry
    else rest

unfoldable pub cycle_contains : Graph → ℕ → Bool
cycle_contains g p = not (locate g.table_size g (home g p) 0 p == 0)

-- What `cycle_edge` does with the node that it finds.
unfoldable pub count_internal : Graph → ℕ → Graph
count_internal g i = record g {
  nodes = set g.nodes i (record (node g i) { internal = (node g i).internal + 1 });
}

unfoldable pub mark : Graph → ℕ → Graph
mark g i = if (node g i).live then g else record g {
  nodes = set g.nodes i (record (node g i) { live = true });
  queue = g.queue ++ i ∷ [];
}

unfoldable pub cycle_edge : Graph → ℕ → Graph
cycle_edge g p =
    let entry = locate g.table_size g (home g p) 0 p in
    if p == 0 || entry == 0
    then g
    else if g.marking
    then mark g (entry - 1)
    else count_internal g (entry - 1)

-- The loop of `cycle_roots` from node `i` on, with the nodes left as fuel.
unfoldable pub roots_loop : ℕ → ℕ → Graph → Graph
roots_loop zero i g = g
roots_loop (suc left) i g = roots_loop left (suc i) (
    if (node g i).references == (node g i).internal then g else record g {
      nodes = set g.nodes i (record (node g i) { live = true });
      queue = g.queue ++ i ∷ [];
    })

unfoldable pub cycle_roots : Graph → Graph
cycle_roots g = roots_loop (length g.nodes) 0 (record g { marking = true })

-- The loops of `gc_owned_edges`, on the pointers that they come to.
unfoldable pub edges_loop : Graph → List ℕ → Graph
edges_loop g [] = g
edges_loop g (p ∷ ps) = edges_loop (cycle_edge g p) ps

-- `for (i = 0; i < graph.queued; i++)`: what the queue grows by in a round is visited later. Every
-- node comes into the queue once, so the number of nodes is enough fuel. `owned` gives the pointers
-- that an object owns.
unfoldable pub mark_loop : ℕ → ℕ → (ℕ → List ℕ) → Graph → Graph
mark_loop zero i owned g = g
mark_loop (suc fuel) i owned g =
    let visited = edges_loop g (owned (node g (get_or g.queue i 0)).object) in
    let rest = mark_loop fuel (suc i) owned visited in if ltb i (length g.queue) then rest else g
