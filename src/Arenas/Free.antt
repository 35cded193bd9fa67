-- ===== src/Arenas/Free.antt =====
-- Taking back an object of an arena, `__amlc_free_object_in` with `__amlc_arena_recycle`, keeps the arenas
-- in order.
use am_lang_core.Base.{
  ℕ, ◌+◌, ◌^◌, ◌<◌, ◌≡◌, ◌≢◌, refl, sym, ap, ◌∙◌, Bool, true, false, List, [], ◌∷◌, arith, All,
  ◌==◌, ltb, inl, inr, Bool-cases, ==_iff, if◌then◌else◌,
}
use am_lang_core.Counting.Chain.{has, erase, has-erase, Distinct-erase}
use am_lang_core.Counting.{down}
use am_lang_core.Counting.Fields.{put}
use am_lang_core.Arenas.{Arenas, arena_recycle, free_chunked}
use am_lang_core.Arenas.Sound.{
  Block, in_arena, Apart, AllApart, IsWithin, IsArena, IsSound, IsWithin-frame, IsFreeList-frame,
}

-- The objects without the one at an address.
abbrev pub without : ℕ → List Block → List Block
without obj [] = []
without obj (b ∷ bs) = if b.object == obj then bs else b ∷ without obj bs

abbrev pub has_object : ℕ → List Block → Bool
has_object obj [] = false
has_object obj (b ∷ bs) = if b.object == obj then true else has_object obj bs

All-without : (P : Block → Type 0) (obj : ℕ) (bs : List Block) → All P bs → All P (without obj bs)
All-without P obj [] all = tt
All-without P obj (b ∷ bs) all = elim (Bool-cases (b.object == obj)) [
  | inl same ↦ rw same all.1
  | inr other ↦ rw other (all.0, All-without P obj bs all.1)
]

AllApart-without : (obj : ℕ) (bs : List Block) → AllApart bs → AllApart (without obj bs)
AllApart-without obj [] all = tt
AllApart-without obj (b ∷ bs) all = elim (Bool-cases (b.object == obj)) [
  | inl same ↦ rw same all.1
  | inr other ↦ rw other (All-without (Apart b) obj bs all.0, AllApart-without obj bs all.1)
]

-- The arena of an object loses one.
in_arena-without :
    (s : Arenas) (owned : List ℕ) (obj a : ℕ) (bs : List Block)
    → All (IsWithin s owned) bs
    → has_object obj bs ≡ true
    → in_arena a bs ≡ in_arena a (without obj bs) + (if s.arena_of obj == a then 1 else 0)
in_arena-without s owned obj a [] all h = cc
in_arena-without s owned obj a (b ∷ bs) all h = elim (Bool-cases (b.object == obj)) [
  | inl same ↦
      let e = (==_iff b.object obj).0 same in
      let (_, _, _, knows, _) = all.0 in
      let home : s.arena_of obj ≡ b.home = ap s.arena_of (sym e) ∙ knows in
      rw (same, home) (omega arith)
  | inr other ↦
      let rest = in_arena-without s owned obj a bs all.1 (ground arith) in rw other (omega arith)
]

home_owned :
    (s : Arenas) (owned : List ℕ) (obj : ℕ) (bs : List Block)
    → All (IsWithin s owned) bs
    → has_object obj bs ≡ true
    → has (s.arena_of obj) owned ≡ true
home_owned s owned obj [] all h = cc
home_owned s owned obj (b ∷ bs) all h = elim (Bool-cases (b.object == obj)) [
  | inl same ↦
      let e = (==_iff b.object obj).0 same in
      let (here, _, _, knows, _) = all.0 in
      ap (λ x. has x owned) (ap s.arena_of (sym e) ∙ knows) ∙ here
  | inr other ↦ home_owned s owned obj bs all.1 (ground arith)
]

module _ (arena_size : ℕ) (small : arena_size < 2 ^ 32) (s : Arenas) (blocks : List Block) (obj : ℕ)
    (e : IsSound arena_size s blocks) (there : has_object obj blocks ≡ true) where
  abbrev a : ℕ
  a = s.arena_of obj

  abbrev left : List Block
  left = without obj blocks

  mine : has a e.owned ≡ true
  mine = home_owned s e.owned obj blocks e.within there

  counts : (k : ℕ) → in_arena k blocks ≡ in_arena k left + (if a == k then 1 else 0)
  counts k = in_arena-without s e.owned obj k blocks e.within there

  abbrev dropped : Arenas
  dropped = record s { live = put s.live a (down (s.live a)) }

  lowered : down (s.live a) + 1 ≡ s.live a
  lowered =
      let (size, fits, dense, counted, idle) = e.areas a mine in
      let self : (a == a) ≡ true = (==_iff a a).1 refl in
      let here : in_arena a blocks ≡ in_arena a left + 1 = rw self at (counts a) in omega arith

  not_kept : (k : ℕ) → has k e.kept ≡ true → (k == a) ≡ false
  not_kept k h =
      let (_, none, _) = e.kept_idle k h in
      let low = lowered in
      elim (Bool-cases (k == a)) [
        | inr z ↦ z
        | inl z ↦ let z' = ap s.live ((==_iff k a).0 z) in absurd (omega arith)
      ]

  dropped_areas :
      (k : ℕ) → has k e.owned ≡ true → (k == a) ≡ false → IsArena arena_size dropped left k
  dropped_areas k h other =
      let (size, fits, dense, counted, idle) = e.areas k h in
      let same : (a == k) ≡ false = ground arith in
      let count : in_arena k blocks ≡ in_arena k left = rw same at (counts k) ∙ omega arith in
      rw other (size, fits, dense, counted ∙ count, idle)

  -- An object goes, and others of its arena stay.
  some_left : (down (s.live a) == 0) ≡ false → IsSound arena_size dropped left
  some_left more = record {
    owned = e.owned;
    kept = e.kept;
    owned_once = e.owned_once;
    no_null = e.no_null;
    free_list = e.free_list;
    kept_once = e.kept_once;
    kept_count = e.kept_count;
    kept_idle =
        λ k h. let (o, l, n) = e.kept_idle k h in let z = not_kept k h in (o, ground arith, n);
    current = e.current;
    areas = λ k h. elim (Bool-cases (k == a)) [
      | inr other ↦ dropped_areas k h other
      | inl same ↦
          let z = (==_iff k a).0 same in
          let (size, fits, dense, counted, idle) = e.areas a mine in
          let self : (a == a) ≡ true = (==_iff a a).1 refl in
          let here : in_arena a blocks ≡ in_arena a left + 1 = rw self at (counts a) in
          let low = lowered in
          rw (same, z) (size, fits, omega arith, omega arith, λ y. absurd (ground arith))
    ];
    separate = e.separate;
    within = All-without (IsWithin s e.owned) obj blocks e.within;
    apart = AllApart-without obj blocks e.apart;
  }

  -- The last object of its arena goes: nothing is left in it.
  nothing_left : (down (s.live a) == 0) ≡ true → in_arena a left ≡ 0
  nothing_left last =
      let (size, fits, dense, counted, idle) = e.areas a mine in
      let self : (a == a) ≡ true = (==_iff a a).1 refl in
      let here : in_arena a blocks ≡ in_arena a left + 1 = rw self at (counts a) in
      let low = lowered in ground arith

  abbrev reset : Arenas
  reset = record dropped { used = put s.used a 0 }

  reset_areas :
      (down (s.live a) == 0) ≡ true
      → (k : ℕ) → has k e.owned ≡ true
      → IsArena arena_size reset left k
  reset_areas last k h = elim (Bool-cases (k == a)) [
    | inr other ↦ let old = dropped_areas k h other in rw other (rw other at old)
    | inl same ↦
        let z = (==_iff k a).0 same in
        let zero_live : down (s.live a) ≡ 0 = (==_iff _ 0).0 last in
        let (size, _, _, _, _) = e.areas a mine in
        let none = nothing_left last in
        rw (same, z) (size, omega arith, omega arith, zero_live ∙ sym none, λ y. refl)
  ]

  reset-IsWithin :
      (down (s.live a) == 0) ≡ true
      → (owned : List ℕ) → ((k : ℕ) → has k e.owned ≡ true → (k == a) ≡ false → has k owned ≡ true)
      → All (IsWithin reset owned) left
  reset-IsWithin last owned kept =
      IsWithin-frame s reset e.owned owned left refl
        (λ k h some.
          let other : (k == a) ≡ false = elim (Bool-cases (k == a)) [
            | inr z ↦ z
            | inl z ↦
                let z' = ap (λ x. in_arena x left) ((==_iff k a).0 z) in
                let none = nothing_left last in absurd (omega arith)
          ] in
          (kept k h other, refl, ground arith))
        (All-without (IsWithin s e.owned) obj blocks e.within)

  recycled : (down (s.live a) == 0) ≡ true → IsSound arena_size (arena_recycle a dropped) left
  unfolding arena_recycle
  recycled last =
      let (count, few) = e.kept_count in
      let fresh : has a e.kept ≡ false = elim (Bool-cases (has a e.kept)) [
        | inr z ↦ z
        | inl z ↦ absurd (cc (not_kept a z, (==_iff a a).1 refl))
      ] in
      let idle : (k : ℕ)
          → has k e.kept ≡ true
          → (has k e.owned ≡ true) × (reset.live k ≡ 0) × (k ≢ s.arena) =
        λ k h. let (o, l, n) = e.kept_idle k h in let z = not_kept k h in (o, ground arith, n) in
      elim (Bool-cases (a == s.arena)) [
        | inl now ↦ rw now (record {
          owned = e.owned;
          kept = e.kept;
          owned_once = e.owned_once;
          no_null = e.no_null;
          free_list = e.free_list;
          kept_once = e.kept_once;
          kept_count = e.kept_count;
          kept_idle = idle;
          current = e.current;
          areas = reset_areas last;
          separate = e.separate;
          within = reset-IsWithin last e.owned (λ k h z. h);
          apart = AllApart-without obj blocks e.apart;
        })
        | inr past ↦ elim (Bool-cases (ltb s.free_arena_count 4)) [
          | inl room ↦
              rw (past, room)
                (record {
                  owned = e.owned;
                  kept = a ∷ e.kept;
                  owned_once = e.owned_once;
                  no_null = e.no_null;
                  free_list = (
                    refl,
                    λ z. absurd (cc (mine, ap (λ x. has x e.owned) z, e.no_null)),
                    rw ((==_iff a a).1 refl) (
                        IsFreeList-frame s.next_free a s.free_arenas s.free_arenas e.kept fresh
                          e.free_list),
                  );
                  kept_once = (fresh, e.kept_once);
                  kept_count = (ground arith, ground arith);
                  kept_idle = λ k h. elim (Bool-cases (k == a)) [
                    | inl z ↦
                        let z' = (==_iff k a).0 z in
                        let zero_live : down (s.live a) ≡ 0 = (==_iff _ 0).0 last in
                        let m = mine in rw (z, z') (m, zero_live, λ y. absurd (ground arith))
                    | inr z ↦ idle k (ground arith)
                  ];
                  current = e.current;
                  areas = reset_areas last;
                  separate = e.separate;
                  within = reset-IsWithin last e.owned (λ k h z. h);
                  apart = AllApart-without obj blocks e.apart;
                })
          | inr full ↦
              rw (past, full)
                (record {
                  owned = erase a e.owned;
                  kept = e.kept;
                  owned_once = Distinct-erase a e.owned e.owned_once;
                  no_null = ground (arith, has-erase 0 a e.owned e.owned_once, e.no_null);
                  free_list = e.free_list;
                  kept_once = e.kept_once;
                  kept_count = e.kept_count;
                  kept_idle = λ k h.
                      let (o, l, n) = idle k h in
                      let z = not_kept k h in (has-erase k a e.owned e.owned_once ∙ rw z o, l, n);
                  current = λ n.
                      let z : (s.arena == a) ≡ false = ground arith in
                      has-erase s.arena a e.owned e.owned_once ∙ rw z (e.current n);
                  areas = λ k h.
                      reset_areas last k (ground (arith, has-erase k a e.owned e.owned_once));
                  separate = λ j k x y.
                      e.separate j k (ground (arith, has-erase j a e.owned e.owned_once))
                        (ground (arith, has-erase k a e.owned e.owned_once));
                  within =
                      reset-IsWithin last (erase a e.owned)
                        (λ k h z. has-erase k a e.owned e.owned_once ∙ rw z h);
                  apart = AllApart-without obj blocks e.apart;
                })
        ]
      ]

  -- Taking an object back while the arenas are in order keeps them in order without it: whether its arena
  -- has other objects, is the current one, is kept for later, or goes back to the system.
  pub free_chunked-IsSound : IsSound arena_size (free_chunked obj s) left
  unfolding free_chunked
  free_chunked-IsSound =
      let self : (a == a) ≡ true = (==_iff a a).1 refl in
      elim (Bool-cases (down (s.live a) == 0)) [
        | inl last ↦ rw (self, last) (recycled last)
        | inr more ↦ rw (self, more) (some_left more)
      ]
