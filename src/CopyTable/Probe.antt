-- ===== src/CopyTable/Probe.antt =====
-- Looking an object up by probing is a search through the whole table.
use am_lang_core.Base.{
  ℕ, zero, suc, ◌+◌, ◌%◌, ◌≤◌, ◌<◌, ◌≡◌, ◌≢◌, ◌⊎◌, inl, inr, refl, sym, ◌∙◌, List, [], ◌∷◌, arith,
  ◌==◌, if◌then◌else◌, length, All, Bool-cases, ==_iff,
}
use am_lang_core.CopyTable.{CopyPair, at, lookup_loop}

-- The first pair for an object, in the order of the table; what comes in place of none.
abbrev pub find_else : List CopyPair → ℕ → ℕ → ℕ
find_else [] s d = d
find_else (p ∷ ps) s d = if p.src == s then p.dst else find_else ps s d

abbrev pub find : List CopyPair → ℕ → ℕ
find ps s = find_else ps s 0

abbrev pub Absent : ℕ → List CopyPair → Type 0
Absent s ps = All (λ p. p.src ≢ s) ps

-- No object has two pairs.
abbrev pub Unique : List CopyPair → Type 0
Unique [] = Unit {0}
Unique (p ∷ ps) = ((p.src ≡ 0) ⊎ Absent p.src ps) × Unique ps

-- Probing for `s`, from the slot that `start` gives, comes to slot `k` over occupied slots only.
pub record Reaches (start : ℕ → ℕ) (tab : List CopyPair) (cap s k : ℕ) : Type 0 where
  pub offset : ℕ
  pub within : offset < cap
  pub lands : (start s + offset) % cap ≡ k
  pub occupied : (j : ℕ) → j < offset → (at tab ((start s + j) % cap)).src ≢ 0

-- A table in order: of its size, no object twice, and every pair where probing finds it.
pub record IsTable (start : ℕ → ℕ) (tab : List CopyPair) (cap : ℕ) : Type 0 where
  pub size : length tab ≡ cap
  pub positive : 0 < cap
  pub unique : Unique tab
  pub reach : (k : ℕ) → k < cap → (at tab k).src ≢ 0 → Reaches start tab cap (at tab k).src k

pub find_else-Absent : (ps : List CopyPair) (s d : ℕ) → Absent s ps → find_else ps s d ≡ d
find_else-Absent [] s d h = refl
find_else-Absent (p ∷ ps) s d h = ground (arith, find_else-Absent ps s d)

at-Absent : (ps : List CopyPair) (s k : ℕ) → Absent s ps → s ≢ 0 → (at ps k).src ≢ s
at-Absent [] s k h ne = λ e. ne (sym e)
at-Absent (p ∷ ps) s zero h ne = h.0
at-Absent (p ∷ ps) s (suc k) h ne = at-Absent ps s k h.1 ne

-- An object is absent or has a slot.
pub search_table :
    (ps : List CopyPair) (s : ℕ) → (Absent s ps) ⊎ ((k : ℕ) × (k < length ps) × ((at ps k).src ≡ s))
search_table [] s = inl tt
search_table (p ∷ ps) s = elim (Bool-cases (p.src == s)) [
  | inl same ↦ inr (0, omega arith, (==_iff _ _).0 same)
  | inr other ↦ elim (search_table ps s) [
    | inl none_later ↦ inl ((λ e. absurd (ground arith)), none_later)
    | inr (k, room, hit) ↦ inr (suc k, omega arith, hit)
  ]
]

-- Whichever slot of an object is read, it is the one that the search through the table finds.
pub find-at :
    (ps : List CopyPair) (s k : ℕ)
    → Unique ps
    → s ≢ 0
    → k < length ps
    → (at ps k).src ≡ s
    → find ps s ≡ (at ps k).dst
find-at [] s k u ne room hit = absurd (omega arith)
find-at (p ∷ ps) s zero u ne room hit = ground arith
find-at (p ∷ ps) s (suc k) u ne room hit = ground (arith, find-at ps s k, at-Absent ps s k)

module _ (tab : List CopyPair) (cap h s : ℕ) (size : length tab ≡ cap) (pos : 0 < cap)
    (u : Unique tab) (ne : s ≢ 0) where
  mod_room : (i : ℕ) → i % cap < cap
  mod_room i = grind arith

  lookup_loop_hit :
      (rounds i d : ℕ)
      → i ≤ d
      → d < i + rounds
      → (at tab ((h + d) % cap)).src ≡ s
      → ((j : ℕ) → j < d → (at tab ((h + j) % cap)).src ≢ 0)
      → lookup_loop rounds tab cap h i s ≡ find tab s
  unfolding lookup_loop
  lookup_loop_hit zero i d le enough hit busy = absurd (omega arith)
  lookup_loop_hit (suc rounds) i d le enough hit busy = ground (
    arith,
    mod_room (h + i),
    busy i,
    find-at tab s ((h + i) % cap) u ne,
    lookup_loop_hit rounds (i + 1) d,
  )

  lookup_loop_miss : (rounds i : ℕ) → Absent s tab → lookup_loop rounds tab cap h i s ≡ 0
  unfolding lookup_loop
  lookup_loop_miss zero i out = refl
  lookup_loop_miss (suc rounds) i out =
      ground (arith, at-Absent tab s ((h + i) % cap) out ne, lookup_loop_miss rounds (i + 1) out)

-- In a table in order, probing for an object and searching the whole table agree, for every object.
pub lookup-find :
    (start : ℕ → ℕ) (tab : List CopyPair) (cap s : ℕ)
    → IsTable start tab cap
    → s ≢ 0
    → lookup_loop cap tab cap (start s) 0 s ≡ find tab s
lookup-find start tab cap s is ne = elim (search_table tab s) [
  | inl out ↦
      lookup_loop_miss tab cap (start s) s is.size is.positive is.unique ne cap 0 out
      ∙ sym (find_else-Absent tab s 0 out)
  | inr (k, room, hit) ↦
      let path : Reaches start tab cap s k =
        rw hit at (is.reach k (omega (arith, is.size)) (λ e. ne (sym hit ∙ e))) in
      lookup_loop_hit tab cap (start s) s is.size is.positive is.unique ne cap 0 path.offset
        (omega arith) (omega (arith, path.within)) (rw path.lands hit) path.occupied
]
