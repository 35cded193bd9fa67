-- ===== src/Collection/Unreached.antt =====
-- The list of the nodes that the marking did not reach, `!graph.nodes[i].live`.
use am_lang_core.Base.{
  ℕ, zero, suc, ◌<◌, ◌≡◌, sym, true, false, List, [], ◌∷◌, arith, All, ◌==◌, inl, inr, Bool-cases,
  ==_iff, length, get_or,
}
use am_lang_core.Collector.{Node, no_node}
use am_lang_core.Collector.Table.{objects}
use am_lang_core.Collector.Collect.{unreached}
use am_lang_core.Counting.Chain.{has, Distinct}
use am_lang_core.Counting.Decrease.{absurd_bool}

pub fresh_at :
    (P : Node → Type 0) (ns : List Node) (j : ℕ)
    → All P ns
    → j < length ns
    → P (get_or ns j no_node)
fresh_at P [] j all lt = absurd (omega arith)
fresh_at P (n ∷ ns) zero all lt = all.0
fresh_at P (n ∷ ns) (suc j) all lt = fresh_at P ns j all.1 (omega arith)

-- A node that was not reached, by its object.
abbrev pub NotLive : List Node → ℕ → Type 0
NotLive ns p =
    (j : ℕ) × (j < length ns)
    × ((get_or ns j no_node).object ≡ p)
    × ((get_or ns j no_node).live ≡ false)

pub has-unreached : (ns : List Node) (p : ℕ) → has p (unreached ns) ≡ true → NotLive ns p
unfolding unreached
has-unreached [] p h = cc
has-unreached (n ∷ ns) p h = elim (Bool-cases n.live) [
  | inl live ↦
      let (j, lt, at, dead) = has-unreached ns p (ground arith) in (suc j, omega arith, at, dead)
  | inr dead ↦ elim (Bool-cases (p == n.object)) [
    | inl same ↦ (0, omega arith, sym ((==_iff p n.object).0 same), dead)
    | inr other ↦
        let (j, lt, at, d) = has-unreached ns p (ground arith) in (suc j, omega arith, at, d)
  ]
]

pub unreached-has :
    (ns : List Node) (j : ℕ)
    → j < length ns
    → (get_or ns j no_node).live ≡ false
    → has (get_or ns j no_node).object (unreached ns) ≡ true
unfolding unreached
unreached-has [] j lt dead = absurd (omega arith)
unreached-has (n ∷ ns) zero lt dead = ground arith
unreached-has (n ∷ ns) (suc j) lt dead = ground (arith, unreached-has ns j)

unreached_among : (ns : List Node) (p : ℕ) → has p (unreached ns) ≡ true → has p (objects ns) ≡ true
unfolding unreached
unreached_among [] p h = cc
unreached_among (n ∷ ns) p h = ground (arith, unreached_among ns p)

pub unreached-Distinct : (ns : List Node) → Distinct (objects ns) → Distinct (unreached ns)
unfolding unreached
unreached-Distinct [] d = tt
unreached-Distinct (n ∷ ns) d = elim (Bool-cases n.live) [
  | inl live ↦ rw live (unreached-Distinct ns d.1)
  | inr dead ↦ rw dead (
    elim (Bool-cases (has n.object (unreached ns))) [
      | inl h ↦ absurd_bool (has n.object (objects ns)) d.0 (unreached_among ns n.object h)
      | inr h ↦ h
    ],
    unreached-Distinct ns d.1,
  )
]
