-- ===== src/CopyTable/Insert.antt =====
-- Inserting an object that has no pair yet, into a table with an empty slot.
use am_lang_core.Base.{
  ℕ, zero, suc, ◌+◌, ◌-◌, ◌%◌, ◌≤◌, ◌<◌, ◌≡◌, ◌≢◌, inl, inr, refl, sym, ap, ◌∙◌, List, [], ◌∷◌,
  arith, leb, ◌==◌, if◌then◌else◌, length, length-set, set, Bool-cases, ==_iff, false,
}
use native.Mathlib.Nat.{mod-eq_of_lt, mod-eq-sub-mod}
use am_lang_core.CopyTable.{CopyPair, at, insert_loop}
use am_lang_core.CopyTable.Probe.{find, Absent, Unique, Reaches, IsTable}

-- How many slots are taken.
abbrev pub occupied : List CopyPair → ℕ
occupied [] = 0
occupied (p ∷ ps) = (if p.src == 0 then 0 else 1) + occupied ps

empty_slot :
    (ps : List CopyPair) → occupied ps < length ps → (k : ℕ) × (k < length ps) × ((at ps k).src ≡ 0)
empty_slot [] h = absurd (omega arith)
empty_slot (p ∷ ps) h = elim (Bool-cases (p.src == 0)) [
  | inl free ↦ (0, omega arith, (==_iff _ _).0 free)
  | inr taken ↦ let (k, room, free) = empty_slot ps (ground arith) in (suc k, omega arith, free)
]

at-set :
    (ps : List CopyPair) (m k : ℕ) (p : CopyPair)
    → m < length ps
    → at (set ps m p) k ≡ (if k == m then p else at ps k)
at-set [] m k p h = absurd (omega arith)
at-set (q ∷ ps) zero zero p h = refl
at-set (q ∷ ps) zero (suc k) p h = ground arith
at-set (q ∷ ps) (suc m) zero p h = ground arith
at-set (q ∷ ps) (suc m) (suc k) p h = ground (arith, at-set ps m k p)

-- Taking an empty slot, for an object that is not in the table.
module _ (p : CopyPair) (ne : p.src ≢ 0) where
  occupied-set :
      (ps : List CopyPair) (m : ℕ)
      → m < length ps
      → (at ps m).src ≡ 0
      → occupied (set ps m p) ≡ occupied ps + 1
  occupied-set [] m room free = absurd (omega arith)
  occupied-set (q ∷ ps) zero room free = ground arith
  occupied-set (q ∷ ps) (suc m) room free = ground (arith, occupied-set ps m)

  Absent-set : (ps : List CopyPair) (m a : ℕ) → Absent a ps → p.src ≢ a → Absent a (set ps m p)
  Absent-set [] m a out other = tt
  Absent-set (q ∷ ps) zero a out other = (other, out.1)
  Absent-set (q ∷ ps) (suc m) a out other = (out.0, Absent-set ps m a out.1 other)

  Unique-set : (ps : List CopyPair) (m : ℕ) → Absent p.src ps → Unique ps → Unique (set ps m p)
  Unique-set [] m out u = tt
  Unique-set (q ∷ ps) zero out u = (inr out.1, u.1)
  Unique-set (q ∷ ps) (suc m) out u = (
    elim u.0 [
      | inl free ↦ inl free
      | inr once ↦ inr (Absent-set ps m q.src once (λ e. out.0 (sym e)))
    ],
    Unique-set ps m out.1 u.1,
  )

  find-set :
      (ps : List CopyPair) (m s : ℕ)
      → m < length ps
      → (at ps m).src ≡ 0
      → Absent p.src ps
      → s ≢ 0
      → find (set ps m p) s ≡ (if p.src == s then p.dst else find ps s)
  find-set [] m s room free out nz = absurd (omega arith)
  find-set (q ∷ ps) zero s room free out nz = ground arith
  find-set (q ∷ ps) (suc m) s room free out nz = ground (arith, find-set ps m s)

-- Every slot lies on every path of probing.
offset_of : (cap h k : ℕ) → h < cap → k < cap → (d : ℕ) × (d < cap) × ((h + d) % cap ≡ k)
offset_of cap h k hh hk = elim (Bool-cases (leb h k)) [
  | inl le ↦
      let there : h + (k - h) ≡ k = ground arith in
      (k - h, ground arith, rw there (mod-eq_of_lt hk))
  | inr gt ↦
      let there : h + (k + cap - h) ≡ k + cap = ground arith in
      let back : k + cap - cap ≡ k = omega arith in
      (
        k + cap - h,
        ground arith,
        rw there (mod-eq-sub-mod (omega arith) ∙ ap (λ t. t % cap) back ∙ mod-eq_of_lt hk),
      )
]

-- Where the loop stops: the first empty slot from offset `i` on.
record Stops (tab : List CopyPair) (cap h i : ℕ) (p : CopyPair) (result : List CopyPair)
    : Type 0 where
  offset : ℕ
  within : offset < cap
  free : (at tab ((h + offset) % cap)).src ≡ 0
  busy : (j : ℕ) → i ≤ j → j < offset → (at tab ((h + j) % cap)).src ≢ 0
  written : result ≡ set tab ((h + offset) % cap) p

module _ (tab : List CopyPair) (cap h src dst : ℕ) where
  insert_loop-Stops :
      (rounds i d : ℕ)
      → i ≤ d
      → d < i + rounds
      → d < cap
      → (at tab ((h + d) % cap)).src ≡ 0
      → Stops tab cap h i (record { src = src; dst = dst }) (insert_loop rounds tab cap h i src dst)
  unfolding insert_loop
  insert_loop-Stops zero i d le enough room free = absurd (omega arith)
  insert_loop-Stops (suc rounds) i d le enough room free =
      elim (Bool-cases ((at tab ((h + i) % cap)).src == 0)) [
        | inl here ↦ record {
          offset = i;
          within = omega arith;
          free = (==_iff _ _).0 here;
          busy = λ j ge lt. absurd (omega arith);
          written = ground arith;
        }
        | inr taken ↦
            let more = insert_loop-Stops rounds (i + 1) d (ground arith) (omega arith) room free in
            record {
              offset = more.offset;
              within = more.within;
              free = more.free;
              busy = λ j ge lt. ground (arith, more.busy j);
              written = ground (arith, more.written);
            }
      ]

-- What a successful insertion does: the table stays in order, one more slot is taken, and a search
-- finds the new pair and all that it found before.
pub record Inserts (start : ℕ → ℕ) (tab : List CopyPair) (cap src dst : ℕ) (result : List CopyPair)
    : Type 0 where
  pub in_order : IsTable start result cap
  pub taken : occupied result ≡ occupied tab + 1
  pub finds : (s : ℕ) → s ≢ 0 → find result s ≡ (if src == s then dst else find tab s)
  pub absent : (a : ℕ) → Absent a tab → src ≢ a → Absent a result

module _ (start : ℕ → ℕ) (tab : List CopyPair) (cap : ℕ) (is : IsTable start tab cap) (src dst : ℕ)
    (ne : src ≢ 0) (out : Absent src tab) where
  new_pair : CopyPair
  new_pair = record { src = src; dst = dst }

  module _
      (stop : Stops tab cap
        (start src)
        0
        new_pair
        (insert_loop cap tab cap (start src) 0 src dst)) where
    where_put : ℕ
    where_put = (start src + stop.offset) % cap

    put_room : where_put < length tab
    unfolding where_put
    put_room = grind (arith, is.size, is.positive)

    stays_busy : (k : ℕ) → (at tab k).src ≢ 0 → (at (set tab where_put new_pair) k).src ≢ 0
    unfolding new_pair
    stays_busy k busy = ground (arith, put_room, at-set tab where_put k new_pair)

    reach_old :
        (k : ℕ)
        → (k == where_put) ≡ false
        → k < cap
        → (at tab k).src ≢ 0
        → Reaches start (set tab where_put new_pair) cap (at tab k).src k
    reach_old k other room busy =
        let r = is.reach k room busy in
        record {
          offset = r.offset;
          within = r.within;
          lands = r.lands;
          occupied = λ j lt. stays_busy ((start (at tab k).src + j) % cap) (r.occupied j lt);
        }

    reach_new : Reaches start (set tab where_put new_pair) cap src where_put
    unfolding where_put
    reach_new = record {
      offset = stop.offset;
      within = stop.within;
      lands = refl;
      occupied = λ j lt. stays_busy ((start src + j) % cap) (stop.busy j (omega arith) lt);
    }

    reach_all :
        (k : ℕ)
        → k < cap
        → (at (set tab where_put new_pair) k).src ≢ 0
        → Reaches start (set tab where_put new_pair) cap (at (set tab where_put new_pair) k).src k
    unfolding new_pair
    reach_all k room busy = elim (Bool-cases (k == where_put)) [
      | inl same ↦
          let at_put = at-set tab where_put k new_pair put_room in
          let e : (at (set tab where_put new_pair) k).src ≡ src = ground arith in
          rw e (rw ((==_iff k where_put).0 same) reach_new)
      | inr other ↦
          let at_put = at-set tab where_put k new_pair put_room in
          let e : (at (set tab where_put new_pair) k).src ≡ (at tab k).src = ground arith in
          rw e (reach_old k other room (λ z. busy (e ∙ z)))
    ]

    inserted : Inserts start tab cap src dst (insert_loop cap tab cap (start src) 0 src dst)
    unfolding new_pair where_put
    inserted = rw stop.written (record {
      in_order = record {
        size = length-set tab where_put new_pair ∙ is.size;
        positive = is.positive;
        unique = Unique-set new_pair ne tab where_put out is.unique;
        reach = reach_all;
      };
      taken = occupied-set new_pair ne tab where_put put_room stop.free;
      finds = λ s nz. find-set new_pair ne tab where_put s put_room stop.free out nz;
      absent = λ a free other. Absent-set new_pair ne tab where_put a free other;
    })

  -- A table in order with an empty slot takes a new object in.
  pub insert_loop-Inserts :
      start src < cap
      → occupied tab < cap
      → Inserts start tab cap src dst (insert_loop cap tab cap (start src) 0 src dst)
  unfolding new_pair
  insert_loop-Inserts begins less =
      let (k, room, free) = empty_slot tab (omega (arith, is.size)) in
      let (d, near, lands) = offset_of cap (start src) k begins (omega (arith, is.size)) in
      inserted (
        insert_loop-Stops tab cap (start src) src dst cap 0 d (omega arith) (omega arith) near
          (rw lands free))
