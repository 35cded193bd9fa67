-- ===== src/CopyTable/Record.antt =====
-- Recording a copy, with the growth of the table.
use am_lang_core.Base.{
  ℕ, zero, suc, ◌+◌, ◌*◌, ◌%◌, ◌^◌, ◌≤◌, ◌<◌, ◌≡◌, ◌≢◌, ◌⊎◌, inl, inr, refl, sym, ap, ◌∙◌, ◌||◌,
  List, [], ◌∷◌, arith, ltb, ◌==◌, if◌then◌else◌, length-replicate, replicate, All, Bool-cases,
  ==_iff, true,
}
use am_lang_core.CopyTable.{
  CopyPair, empty_pair, CopyCtx, at, slot_of, copy_lookup, copy_insert_raw, rehash, grown, recorded,
  copy_record,
}
use am_lang_core.CopyTable.Probe.{
  find_else, find, find_else-Absent, Absent, Unique, IsTable, lookup-find,
}
use am_lang_core.CopyTable.Insert.{occupied, Inserts, insert_loop-Inserts}

-- The table that `calloc` gives.
at-replicate : (n k : ℕ) → (at (replicate n empty_pair) k).src ≡ 0
at-replicate zero k = refl
at-replicate (suc n) zero = refl
at-replicate (suc n) (suc k) = at-replicate n k

Unique-replicate : (n : ℕ) → Unique (replicate n empty_pair)
Unique-replicate zero = tt
Unique-replicate (suc n) = (inl refl, Unique-replicate n)

occupied-replicate : (n : ℕ) → occupied (replicate n empty_pair) ≡ 0
occupied-replicate zero = refl
occupied-replicate (suc n) = ground (arith, occupied-replicate n)

Absent-replicate : (n s : ℕ) → s ≢ 0 → Absent s (replicate n empty_pair)
Absent-replicate zero s ne = tt
Absent-replicate (suc n) s ne = ((λ e. ne (sym e)), Absent-replicate n s ne)

pub empty-IsTable : (start : ℕ → ℕ) (n : ℕ) → 0 < n → IsTable start (replicate n empty_pair) n
empty-IsTable start n pos = record {
  size = length-replicate n empty_pair;
  positive = pos;
  unique = Unique-replicate n;
  reach = λ k room busy. absurd (busy (at-replicate n k));
}

-- The objects of the first table are not in the second one.
abbrev Apart : List CopyPair → List CopyPair → Type 0
Apart old ntab = All (λ p. (p.src ≡ 0) ⊎ Absent p.src ntab) old

Apart-replicate : (old : List CopyPair) (n : ℕ) → Apart old (replicate n empty_pair)
Apart-replicate [] n = tt
Apart-replicate (p ∷ old) n = (
  elim (Bool-cases (p.src == 0)) [
    | inl free ↦ inl ((==_iff _ _).0 free)
    | inr taken ↦ inr (Absent-replicate n p.src (λ e. absurd (ground arith)))
  ],
  Apart-replicate old n,
)

Apart-insert :
    (old ntab result : List CopyPair) (src : ℕ)
    → Apart old ntab
    → Absent src old
    → ((a : ℕ) → Absent a ntab → src ≢ a → Absent a result)
    → Apart old result
Apart-insert [] ntab result src apart out keeps = tt
Apart-insert (p ∷ old) ntab result src apart out keeps = (
  elim apart.0 [ inl free ↦ inl free | inr new ↦ inr (keeps p.src new (λ e. out.0 (sym e))) ],
  Apart-insert old ntab result src apart.1 out.1 keeps,
)

slot_of-lt : (cap s : ℕ) → 0 < cap → slot_of cap s < cap
unfolding slot_of
slot_of-lt cap s h = grind arith

copy_insert_raw-Inserts :
    (tab : List CopyPair) (cap : ℕ)
    → IsTable (slot_of cap) tab cap
    → (src dst : ℕ) → src ≢ 0
    → Absent src tab
    → occupied tab < cap
    → Inserts (slot_of cap) tab cap src dst (copy_insert_raw tab cap src dst)
unfolding copy_insert_raw
copy_insert_raw-Inserts tab cap is src dst ne out less =
    insert_loop-Inserts (slot_of cap) tab cap is src dst ne out (slot_of-lt cap src is.positive)
      less

-- What moving the old pairs does.
record Moves (old ntab : List CopyPair) (ncap : ℕ) (result : List CopyPair) : Type 0 where
  in_order : IsTable (slot_of ncap) result ncap
  taken : occupied result ≡ occupied old + occupied ntab
  finds : (s : ℕ) → s ≢ 0 → find result s ≡ find_else old s (find ntab s)
  absent : (a : ℕ) → Absent a old → Absent a ntab → Absent a result

rehash-Moves :
    (old ntab : List CopyPair) (ncap : ℕ)
    → IsTable (slot_of ncap) ntab ncap
    → Unique old
    → Apart old ntab
    → occupied old + occupied ntab < ncap
    → Moves old ntab ncap (rehash old ntab ncap)
unfolding rehash
rehash-Moves [] ntab ncap is u apart room = record {
  in_order = is;
  taken = omega arith;
  finds = λ s ne. refl;
  absent = λ a h k. k;
}
rehash-Moves (p ∷ old) ntab ncap is u apart room = elim (Bool-cases (p.src == 0)) [
  | inl free ↦
      let rest = rehash-Moves old ntab ncap is u.1 apart.1 (ground arith) in
      rw free (record {
        in_order = rest.in_order;
        taken = ground (arith, rest.taken);
        finds = λ s ne. ground (arith, rest.finds s);
        absent = λ a h k. rest.absent a h.1 k;
      })
  | inr busy ↦
      let ne : p.src ≢ 0 = λ e. absurd (ground arith) in
      let out : Absent p.src ntab = elim apart.0 [ inl z ↦ absurd (ne z) | inr a ↦ a ] in
      let once : Absent p.src old = elim u.0 [ inl z ↦ absurd (ne z) | inr a ↦ a ] in
      let put = copy_insert_raw-Inserts ntab ncap is p.src p.dst ne out (ground arith) in
      let rest =
        rehash-Moves old (copy_insert_raw ntab ncap p.src p.dst) ncap put.in_order u.1
          (Apart-insert old ntab (copy_insert_raw ntab ncap p.src p.dst) p.src apart.1 once
            put.absent)
          (ground (arith, put.taken)) in
      rw busy (record {
        in_order = rest.in_order;
        taken = ground (arith, rest.taken, put.taken);
        finds = λ s nz.
            ground (arith, rest.finds s, put.finds s, find_else-Absent old p.src p.dst once);
        absent = λ a h k. rest.absent a h.1 (put.absent a k h.0);
      })
]

-- A context in order: no table yet, or a table that is at most half full.
pub record IsCtx (ctx : CopyCtx) : Type 0 where
  pub table : ((ctx.tab ≡ []) × (ctx.cap ≡ 0)) ⊎ IsTable (slot_of ctx.cap) ctx.tab ctx.cap
  pub counted : occupied ctx.tab ≡ ctx.count
  pub half_full : ctx.count * 2 ≤ ctx.cap

copy_lookup-find : (ctx : CopyCtx) (s : ℕ) → IsCtx ctx → s ≢ 0 → copy_lookup ctx s ≡ find ctx.tab s
unfolding copy_lookup
copy_lookup-find ctx s is ne = elim is.table [
  | inl none ↦ ground (arith, ap (λ t. find t s) none.0)
  | inr t ↦ ground (arith, lookup-find (slot_of ctx.cap) ctx.tab ctx.cap s t ne, t.positive)
]

-- A table with room takes a new object in.
module _ (ctx : CopyCtx) (src dst : ℕ) (ne : src ≢ 0) (out : Absent src ctx.tab)
    (t : IsTable (slot_of ctx.cap) ctx.tab ctx.cap) (counted : occupied ctx.tab ≡ ctx.count)
    (room : (ctx.count + 1) * 2 ≤ ctx.cap) (small : ctx.cap < 2 ^ 32) where
  put_recorded :
      Inserts (slot_of ctx.cap) ctx.tab ctx.cap src dst (copy_insert_raw ctx.tab ctx.cap src dst)
  put_recorded = copy_insert_raw-Inserts ctx.tab ctx.cap t src dst ne out (omega arith)

  recorded-IsCtx : IsCtx (recorded ctx src dst)
  unfolding recorded
  recorded-IsCtx = record {
    table = inr put_recorded.in_order;
    counted = put_recorded.taken ∙ omega (arith, counted);
    half_full = omega arith;
  }

  recorded-find :
      (s : ℕ)
      → s ≢ 0
      → find (recorded ctx src dst).tab s ≡ (if src == s then dst else find ctx.tab s)
  unfolding recorded
  recorded-find = put_recorded.finds

-- The new size.
abbrev next_cap : ℕ → ℕ
next_cap cap = if cap == 0 then 64 else cap * 2 % 2 ^ 32

module _ (ctx : CopyCtx) (is : IsCtx ctx) (small : ctx.cap < 2 ^ 31) where
  grown_small : (grown ctx).cap < 2 ^ 32
  unfolding grown
  grown_small = ground arith

  grown-Moves :
      Moves ctx.tab (replicate (next_cap ctx.cap) empty_pair) (next_cap ctx.cap) (grown ctx).tab
  unfolding grown
  grown-Moves =
      rehash-Moves ctx.tab (replicate (next_cap ctx.cap) empty_pair) (next_cap ctx.cap)
        (empty-IsTable (slot_of (next_cap ctx.cap)) (next_cap ctx.cap) (ground arith)) unique
        (Apart-replicate ctx.tab (next_cap ctx.cap))
        (ground (arith, is.counted, is.half_full, occupied-replicate (next_cap ctx.cap)))
    where
      unique : Unique ctx.tab
      unique = elim is.table [ inl none ↦ rw none.0 tt | inr t ↦ t.unique ]

  grown-IsTable : IsTable (slot_of (grown ctx).cap) (grown ctx).tab (grown ctx).cap
  unfolding grown
  grown-IsTable = grown-Moves.in_order

  grown_counted : occupied (grown ctx).tab ≡ (grown ctx).count
  unfolding grown
  grown_counted =
      grown-Moves.taken ∙ omega (arith, is.counted, occupied-replicate (next_cap ctx.cap))

  grown_room :
      (ctx.cap ≡ 0) ⊎ (ctx.cap < (ctx.count + 1) * 2)
      → ((grown ctx).count + 1) * 2 ≤ (grown ctx).cap
  unfolding grown
  grown_room full = ground (arith, is.half_full)

  grown-find : (s : ℕ) → s ≢ 0 → find (grown ctx).tab s ≡ find ctx.tab s
  unfolding grown
  grown-find s ne =
      grown-Moves.finds s ne
      ∙ ap (find_else ctx.tab s) (
          find_else-Absent (replicate (next_cap ctx.cap) empty_pair) s 0
            (Absent-replicate (next_cap ctx.cap) s ne))

  grown-Absent : (s : ℕ) → s ≢ 0 → Absent s ctx.tab → Absent s (grown ctx).tab
  unfolding grown
  grown-Absent s ne out = grown-Moves.absent s out (Absent-replicate (next_cap ctx.cap) s ne)

-- The table that is left is in order, and finds the new copy and all that it found before.
record Records (ctx : CopyCtx) (src dst : ℕ) (result : CopyCtx) : Type 0 where
  in_order : IsCtx result
  finds : (s : ℕ) → s ≢ 0 → find result.tab s ≡ (if src == s then dst else find ctx.tab s)

copy_record-Records :
    (ctx : CopyCtx) (src dst : ℕ)
    → IsCtx ctx
    → src ≢ 0
    → Absent src ctx.tab
    → ctx.cap < 2 ^ 31
    → Records ctx src dst (copy_record true ctx src dst)
unfolding copy_record
copy_record-Records ctx src dst is ne out small =
    elim (Bool-cases ((ctx.cap == 0) || ltb ctx.cap ((ctx.count + 1) * 2 % 2 ^ 32))) [
      | inl full ↦
          let free = grown-Absent ctx is small src ne out in
          let room = grown_room ctx is small (ground (arith, is.half_full)) in
          rw full (record {
            in_order =
                recorded-IsCtx (grown ctx) src dst ne free (grown-IsTable ctx is small)
                  (grown_counted ctx is small) room (grown_small ctx is small);
            finds = λ s nz.
                recorded-find (grown ctx) src dst ne free (grown-IsTable ctx is small)
                  (grown_counted ctx is small) room (grown_small ctx is small) s nz
                ∙ ap (λ d. if src == s then dst else d) (grown-find ctx is small s nz);
          })
      | inr fits ↦
          let t : IsTable (slot_of ctx.cap) ctx.tab ctx.cap = elim is.table [
            | inl none ↦ absurd (ground (arith, none.1))
            | inr t ↦ t
          ] in
          let room : (ctx.count + 1) * 2 ≤ ctx.cap = ground (arith, is.half_full) in
          rw fits (record {
            in_order = recorded-IsCtx ctx src dst ne out t is.counted room (omega arith);
            finds = recorded-find ctx src dst ne out t is.counted room (omega arith);
          })
    ]

-- Recording the copy of an object that has none yet, in a table of fewer than 2 ^ 31 slots and with memory
-- where it has to grow: the table stays at most half full and in order, a lookup of the object then gives
-- the copy, and a lookup of any other object gives what it gave before.
pub copy_lookup-copy_record :
    (ctx : CopyCtx) (src dst : ℕ)
    → IsCtx ctx
    → src ≢ 0
    → Absent src ctx.tab
    → ctx.cap < 2 ^ 31
    → IsCtx (copy_record true ctx src dst)
      × ((s : ℕ)
          → s ≢ 0
          → copy_lookup (copy_record true ctx src dst) s
            ≡ (if src == s then dst else copy_lookup ctx s))
copy_lookup-copy_record ctx src dst is ne out small =
    let r = copy_record-Records ctx src dst is ne out small in
    (
      r.in_order,
      λ s nz.
          copy_lookup-find (copy_record true ctx src dst) s r.in_order nz
          ∙ r.finds s nz
          ∙ ap (λ d. if src == s then dst else d) (sym (copy_lookup-find ctx s is nz)),
    )
