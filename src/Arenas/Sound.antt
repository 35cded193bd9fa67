-- ===== src/Arenas/Sound.antt =====
-- When the arenas are in order, over the list of the objects in them, and that giving out and taking back
-- an object keeps them so: `__amlc_arena_allocate` and `__amlc_free_object_in`.
use mathlib.Core.Path.{subst}
use am_lang_core.Base.{
  ℕ, suc, ◌+◌, ◌*◌, ◌^◌, ◌<◌, ◌≤◌, ◌≡◌, ◌≢◌, ◌⊎◌, refl, sym, ap, ◌∙◌, true, false, ◌||◌, List, [],
  ◌∷◌, arith, All, ◌==◌, ltb, inl, inr, Bool-cases, ==_iff, if◌then◌else◌, length,
}
use am_lang_core.Counting.Chain.{has, Distinct}
use am_lang_core.Counting.{down}
use am_lang_core.Counting.Fields.{put}
use am_lang_core.Arenas.{Arenas, Made, round, slot_of, arena_new, bump, arena_allocate}

-- An object in an arena, with the word before it.
pub record Block : Type 0 where
  pub object : ℕ
  pub slot : ℕ
  pub home : ℕ

abbrev pub in_arena : ℕ → List Block → ℕ
in_arena a [] = 0
in_arena a (b ∷ bs) = (if b.home == a then 1 else 0) + in_arena a bs

-- The two objects share no byte.
abbrev pub Apart : Block → Block → Type 0
Apart b c = (b.object + b.slot ≤ c.object) ⊎ (c.object + c.slot ≤ b.object)

abbrev pub AllApart : List Block → Type 0
AllApart [] = Unit {0}
AllApart (b ∷ bs) = All (Apart b) bs × AllApart bs

abbrev pub IsFreeList : (ℕ → ℕ) → ℕ → List ℕ → Type 0
IsFreeList next_free p [] = p ≡ 0
IsFreeList next_free p (a ∷ ks) = (p ≡ a) × (a ≢ 0) × IsFreeList next_free (next_free a) ks

-- An object lies in what its arena has given out, and knows its arena.
abbrev pub IsWithin : Arenas → List ℕ → Block → Type 0
IsWithin s owned b =
    (has b.home owned ≡ true)
    × (s.area b.home + 8 ≤ b.object)
    × (b.object + b.slot ≤ s.area b.home + s.used b.home + 8)
    × (s.arena_of b.object ≡ b.home)
    × (8 ≤ b.slot)

-- An arena of the isolate: what it gave out fits, `live` counts its objects, and without objects it
-- starts again from its beginning.
abbrev pub IsArena : ℕ → Arenas → List Block → ℕ → Type 0
IsArena arena_size s blocks a =
    (s.capacity a ≡ arena_size)
    × (s.used a ≤ arena_size)
    × (s.live a * 8 ≤ s.used a)
    × (s.live a ≡ in_arena a blocks)
    × (s.live a ≡ 0 → s.used a ≡ 0)

pub record IsSound (arena_size : ℕ) (s : Arenas) (blocks : List Block) : Type 0 where
  pub owned : List ℕ
  pub kept : List ℕ
  pub owned_once : Distinct owned
  pub no_null : has 0 owned ≡ false
  pub free_list : IsFreeList s.next_free s.free_arenas kept
  pub kept_once : Distinct kept
  pub kept_count : (s.free_arena_count ≡ length kept) × (length kept ≤ 4)
  pub kept_idle :
      (a : ℕ) → has a kept ≡ true → (has a owned ≡ true) × (s.live a ≡ 0) × (a ≢ s.arena)
  pub current : s.arena ≢ 0 → has s.arena owned ≡ true
  pub areas : (a : ℕ) → has a owned ≡ true → IsArena arena_size s blocks a
  pub separate :
      (a b : ℕ)
      → has a owned ≡ true
      → has b owned ≡ true
      → a ≢ b
      → (s.area a + arena_size ≤ s.area b) ⊎ (s.area b + arena_size ≤ s.area a)
  pub within : All (IsWithin s owned) blocks
  pub apart : AllApart blocks

pub All_map :
    (P Q : Block → Type 0) (bs : List Block) → ((b : Block) → P b → Q b) → All P bs → All Q bs
All_map P Q [] f all = tt
All_map P Q (b ∷ bs) f all = (f b all.0, All_map P Q bs f all.1)

All_both : (P Q : Block → Type 0) (bs : List Block) → All P bs → All Q bs → All (λ b. P b × Q b) bs
All_both P Q [] p q = tt
All_both P Q (b ∷ bs) p q = ((p.0, q.0), All_both P Q bs p.1 q.1)

pub IsFreeList-frame :
    (next_free : ℕ → ℕ) (x v p : ℕ) (ks : List ℕ)
    → has x ks ≡ false
    → IsFreeList next_free p ks
    → IsFreeList (put next_free x v) p ks
IsFreeList-frame next_free x v p [] out c = c
IsFreeList-frame next_free x v p (a ∷ ks) out c =
    let rest = IsFreeList-frame next_free x v (next_free a) ks (ground arith) c.2 in
    let same : put next_free x v a ≡ next_free a = ground arith in (c.0, c.1, rw same rest)

none_in :
    (s : Arenas) (owned : List ℕ) (a : ℕ) (bs : List Block)
    → has a owned ≡ false
    → All (IsWithin s owned) bs
    → in_arena a bs ≡ 0
none_in s owned a [] out all = refl
none_in s owned a (b ∷ bs) out all =
    let rest = none_in s owned a bs out all.1 in
    let here = all.0.0 in
    elim (Bool-cases (b.home == a)) [
      | inl same ↦ let e = (==_iff b.home a).0 same in absurd (cc (here, e, out))
      | inr other ↦ ground arith
    ]

-- The arenas that were there keep their place and what they gave out.
abbrev pub Keeps : Arenas → Arenas → List ℕ → ℕ → Type 0
Keeps s s' owned' a = (has a owned' ≡ true) × (s'.area a ≡ s.area a) × (s.used a ≤ s'.used a)

pub IsWithin-frame :
    (s s' : Arenas) (owned owned' : List ℕ) (bs : List Block)
    → s'.arena_of ≡ s.arena_of
    → ((a : ℕ) → has a owned ≡ true → 0 < in_arena a bs → Keeps s s' owned' a)
    → All (IsWithin s owned) bs
    → All (IsWithin s' owned') bs
IsWithin-frame s s' owned owned' [] same keeps all = tt
IsWithin-frame s s' owned owned' (b ∷ bs) same keeps all =
    let (h, low, high, knows, wide) = all.0 in
    let (h', place, more) = keeps b.home h (ground arith) in
    (
      (h', omega arith, omega arith, ap (λ f. f b.object) same ∙ knows, wide),
      IsWithin-frame s s' owned owned' bs same (λ a x n. keeps a x (omega arith)) all.1,
    )

module _ (arena_size : ℕ) where
  -- Giving out the next block of the current arena.
  bump-IsSound :
      (s : Arenas) (blocks : List Block) (slot : ℕ)
      → (e : IsSound arena_size s blocks) → s.arena ≢ 0
      → s.used s.arena + slot ≤ arena_size
      → arena_size < 2 ^ 32
      → 8 ≤ slot
      → IsSound arena_size
          (bump s.arena slot s).state
          (record { object = (bump s.arena slot s).pointer; slot = slot; home = s.arena } ∷ blocks)
  unfolding bump
  bump-IsSound s blocks slot e ne room small wide =
      let a = s.arena in
      let mine = e.current ne in
      let (size, fits, dense, counted, idle) = e.areas a mine in
      let new : Block = record { object = s.area a + s.used a + round 8; slot = slot; home = a } in
      let clear : All (Apart new) blocks =
        All_map (IsWithin s e.owned) (Apart new) blocks
          (λ b (h, low, high, knows, w). elim (Bool-cases (b.home == a)) [
            | inl same ↦ inr (
                let same' = (==_iff b.home a).0 same in
                let high' : b.object + b.slot ≤ s.area a + s.used a + 8 = rw same' at high in
                omega arith)
            | inr other ↦ elim (e.separate a b.home mine h (λ z. ground arith)) [
              | inl below ↦ inl (omega arith)
              | inr above ↦ inr (let (_, f, _, _, _) = e.areas b.home h in omega arith)
            ]
          ])
          e.within in
      let later = (bump s.arena slot s).state in
      record {
        owned = e.owned;
        kept = e.kept;
        owned_once = e.owned_once;
        no_null = e.no_null;
        free_list = e.free_list;
        kept_once = e.kept_once;
        kept_count = e.kept_count;
        kept_idle = λ k h. let (o, l, n) = e.kept_idle k h in (o, ground arith, n);
        current = e.current;
        areas = λ k h.
            let old = e.areas k h in
            elim (Bool-cases (k == a)) [
              | inl same ↦ let z = (==_iff k a).0 same in ground arith
              | inr other ↦ ground arith
            ];
        separate = e.separate;
        within = (
          (mine, omega arith, ground arith, ground arith, wide),
          All_map (λ b. IsWithin s e.owned b × Apart new b) (IsWithin later e.owned) blocks
              (λ b (w, disjoint).
                let (h, low, high, knows, big) = w in
                let other : (b.object == new.object) ≡ false = elim disjoint [
                  | inl below ↦ ground arith
                  | inr above ↦ ground arith
                ] in
                (h, low, ground arith, ground arith, big))
              (All_both (IsWithin s e.owned) (Apart new) blocks e.within clear),
        );
        apart = (clear, e.apart);
      }

  module _ (header block : ℕ) (s : Arenas) (blocks : List Block)
      (e : IsSound arena_size s blocks) where
    -- Memory that the system hands out is none that the isolate has.
    pub record IsNew : Type 0 where
      pub unknown : has block e.owned ≡ false
      pub away :
          (a : ℕ)
          → has a e.owned ≡ true
          → (s.area a + arena_size ≤ round (block + header))
            ⊎ (round (block + header) + arena_size ≤ s.area a)

    -- The arena that is current from now on, empty, or none where there is no memory.
    abbrev IsRenewed : Made → Type 0
    IsRenewed made =
        ((block ≡ 0) × (made.pointer ≡ 0) × (made.state ≡ s))
        ⊎ ((made.pointer ≢ 0)
            × (made.state.used made.pointer ≡ 0)
            × IsSound arena_size (record made.state { arena = made.pointer }) blocks)

    arena_new_kept-IsRenewed :
        (ks : List ℕ)
        → e.kept ≡ ks
        → s.free_arenas ≢ 0
        → IsRenewed (arena_new arena_size header block s)
    unfolding arena_new
    arena_new_kept-IsRenewed [] same ne =
        let l : IsFreeList s.next_free s.free_arenas [] =
          subst (λ k. IsFreeList s.next_free s.free_arenas k) same e.free_list in
        absurd (ne l)
    arena_new_kept-IsRenewed (h ∷ t) same ne =
        let l : IsFreeList s.next_free s.free_arenas (h ∷ t) =
          subst (λ k. IsFreeList s.next_free s.free_arenas k) same e.free_list in
        let d : Distinct (h ∷ t) = subst Distinct same e.kept_once in
        let (count, few) = e.kept_count in
        let size : length e.kept ≡ suc (length t) = ap length same in
        let idle : (a : ℕ)
            → has a (h ∷ t) ≡ true
            → (has a e.owned ≡ true) × (s.live a ≡ 0) × (a ≢ s.arena) =
          λ a x. e.kept_idle a (ap (has a) same ∙ x) in
        let first = idle h (ground arith) in
        let tail = IsFreeList-frame s.next_free h 0 (s.next_free h) t d.0 l.2 in
        let real : (s.free_arenas == 0) ≡ false = ground arith in
        let unused : s.used h ≡ 0 = (e.areas h first.0).4 first.1 in
        let as_before : (q : ℕ) → put s.used h 0 q ≡ s.used q = λ q. elim (Bool-cases (q == h)) [
          | inl z ↦ let z' = (==_iff q h).0 z in rw (z, z') (sym unused)
          | inr z ↦ rw z refl
        ] in
        rw (real, l.0)
          (inr (
            l.1,
            as_before h ∙ unused,
            record {
              owned = e.owned;
              kept = t;
              owned_once = e.owned_once;
              no_null = e.no_null;
              free_list = tail;
              kept_once = d.1;
              kept_count = (ground arith, omega arith);
              kept_idle = λ a x.
                  let old = idle a (ground arith) in (old.0, old.1, λ z. absurd (ground arith));
              current = λ z. first.0;
              areas = λ a x. rw (as_before a) (e.areas a x);
              separate = e.separate;
              within =
                  IsWithin-frame s
                    (record s {
                      next_free = put s.next_free h 0;
                      used = put s.used h 0;
                      arena = h;
                      free_arenas = s.next_free h;
                      free_arena_count = down s.free_arena_count;
                    })
                    e.owned e.owned blocks refl (λ a x _. (x, refl, omega (arith, as_before a)))
                    e.within;
              apart = e.apart;
            },
          ))

    arena_new_fresh-IsRenewed :
        s.free_arenas ≡ 0 → block ≢ 0 → IsNew → IsRenewed (arena_new arena_size header block s)
    unfolding arena_new
    arena_new_fresh-IsRenewed none ne new =
        let real : (block == 0) ≡ false = ground arith in
        let other : (a : ℕ) → has a e.owned ≡ true → (a == block) ≡ false = λ a h.
          elim (Bool-cases (a == block)) [
            | inr z ↦ z
            | inl z ↦
                let z' = (==_iff a block).0 z in
                absurd (cc (h, ap (λ x. has x e.owned) z', new.unknown))
          ] in
        let listed : (a : ℕ) → has a e.kept ≡ true → (a == block) ≡ false =
          λ a h. other a (e.kept_idle a h).0 in
        let absent : has block e.kept ≡ false = elim (Bool-cases (has block e.kept)) [
          | inr z ↦ z
          | inl z ↦ absurd (cc (listed block z, (==_iff block block).1 refl))
        ] in
        rw (none, real)
          (inr (
            ne,
            ground arith,
            record {
              owned = block ∷ e.owned;
              kept = e.kept;
              owned_once = (new.unknown, e.owned_once);
              no_null = ground (arith, e.no_null);
              free_list =
                  rw none at
                    (IsFreeList-frame s.next_free block 0 s.free_arenas e.kept absent e.free_list);
              kept_once = e.kept_once;
              kept_count = e.kept_count;
              kept_idle = λ a x.
                  let (o, l, n) = e.kept_idle a x in
                  let z = listed a x in (ground arith, ground arith, λ y. absurd (ground arith));
              current = λ z. ground arith;
              areas = λ a x. elim (Bool-cases (a == block)) [
                | inl z ↦
                    let z' = (==_iff a block).0 z in
                    let zero_in = none_in s e.owned block blocks new.unknown e.within in
                    rw (z, z') (refl, omega arith, omega arith, sym zero_in, λ y. refl)
                | inr z ↦ let old = e.areas a (ground arith) in rw z old
              ];
              separate = λ a b x y n. elim (Bool-cases (a == block)) [
                | inl z ↦ elim (Bool-cases (b == block)) [
                  | inl y' ↦ absurd (n (ground arith))
                  | inr y' ↦
                      let far = new.away b (ground arith) in
                      rw (z, y') (elim far [ inl u ↦ inr u | inr u ↦ inl u ])
                ]
                | inr z ↦ elim (Bool-cases (b == block)) [
                  | inl y' ↦ let far = new.away a (ground arith) in rw (z, y') far
                  | inr y' ↦
                      let far = e.separate a b (ground arith) (ground arith) n in rw (z, y') far
                ]
              ];
              within =
                  IsWithin-frame s
                    (record s {
                      area = put s.area block (round (block + header));
                      used = put s.used block 0;
                    })
                    e.owned (block ∷ e.owned) blocks refl
                    (λ a x _. let z = other a x in (ground arith, ground arith, ground arith))
                    e.within;
              apart = e.apart;
            },
          ))

  slot_room : (size : ℕ) → size < 2 ^ 63 → size + 8 ≤ slot_of size
  slot_room size small = omega arith

  -- No object where it does not fit an arena or no memory is left; otherwise one more object in the
  -- arena that is current then.
  pub record Allocates (size block : ℕ) (blocks : List Block) (made : Made) : Type 0 where
    pub sound :
        ((made.pointer ≡ 0) × IsSound arena_size made.state blocks)
        ⊎ ((made.pointer ≢ 0)
            × IsSound arena_size made.state (
                record { object = made.pointer; slot = slot_of size; home = made.state.arena }
                ∷ blocks))
    pub fails : made.pointer ≡ 0 → (arena_size < slot_of size) ⊎ (block ≡ 0)
    pub room : size + 8 ≤ slot_of size

  module _ (header block : ℕ) (s : Arenas) (blocks : List Block) (e : IsSound arena_size s blocks)
      (small : arena_size < 2 ^ 32) (new : block ≢ 0 → IsNew header block s blocks e) where
    arena_new-IsRenewed : IsRenewed header block s blocks e (arena_new arena_size header block s)
    unfolding arena_new
    arena_new-IsRenewed = elim (Bool-cases (s.free_arenas == 0)) [
      | inr ne ↦
          arena_new_kept-IsRenewed header block s blocks e e.kept refl (λ z. absurd (ground arith))
      | inl none ↦
          let none' = (==_iff s.free_arenas 0).0 none in
          elim (Bool-cases (block == 0)) [
            | inr ne ↦
                let ne' : block ≢ 0 = λ z. absurd (ground arith) in
                arena_new_fresh-IsRenewed header block s blocks e none' ne' (new ne')
            | inl z ↦ rw (none, z) (inl ((==_iff block 0).0 z, refl, refl))
          ]
    ]

    -- Allocating while the arenas are in order, with a block from the system that is none of theirs: the
    -- caller gets a null pointer and the arenas are in order as before, or gets an object that lies in
    -- the current arena, has room for the size behind the word before it, and shares no byte with the
    -- others, and the arenas are in order with it. It is null only where the size does not fit an arena
    -- or no memory is left.
    pub arena_allocate-Allocates :
        (size : ℕ)
        → size < 2 ^ 63
        → Allocates size block blocks (arena_allocate arena_size header size block s)
    unfolding arena_allocate bump
    arena_allocate-Allocates size little =
        let wide = slot_room size little in
        let slot = slot_of size in
        let made = arena_new arena_size header block s in
        elim (Bool-cases (ltb arena_size slot)) [
          | inl big ↦
              rw big
                (record { sound = inl (refl, e); fails = λ z. inl (ground arith); room = wide })
          | inr fits ↦
              elim (Bool-cases
                ((s.arena == 0) || ltb (s.capacity s.arena) (s.used s.arena + slot))) [
                  | inr room ↦
                      let ne : s.arena ≢ 0 = λ z. absurd (ground arith) in
                      let (size_of, _, _, _, _) = e.areas s.arena (e.current ne) in
                      rw (fits, room)
                        (record {
                          sound = inr (
                            λ z. absurd (omega arith),
                            bump-IsSound s blocks slot e ne (ground arith) small (omega arith),
                          );
                          fails = λ z. absurd (omega arith);
                          room = wide;
                        })
                  | inl full ↦ elim arena_new-IsRenewed [
                    | inl (none, null, same) ↦
                        rw (fits, full, null)
                          (record {
                            sound = inl (refl, rw same e);
                            fails = λ z. inr none;
                            room = wide;
                          })
                    | inr (ne, empty, sound) ↦
                        let real : (made.pointer == 0) ≡ false = ground arith in
                        rw (fits, full, real)
                          (record {
                            sound = inr (
                              λ z. absurd (omega arith),
                              bump-IsSound (record made.state { arena = made.pointer }) blocks slot
                                  sound ne (ground arith) small (omega arith),
                            );
                            fails = λ z. absurd (omega arith);
                            room = wide;
                          })
                  ]
                ]
        ]
