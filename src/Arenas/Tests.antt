-- ===== src/Arenas/Tests.antt =====
-- Runs of the arenas, and their theorems at a concrete isolate.
use am_lang_core.Base.{◌≡◌, refl, [], ◌∷◌, arith}
use am_lang_core.Arenas.{Arenas, arena_recycle, free_chunked, arena_new, bump, arena_allocate}
use am_lang_core.Arenas.Sound.{Block, IsSound, Allocates, arena_allocate-Allocates}
use am_lang_core.Arenas.Free.{free_chunked-IsSound}

-- The arena 4096 holds one object of 56 bytes.
abbrev one_arena : Arenas
one_arena = record {
  next = λ a. 0;
  prev = λ a. 0;
  next_free = λ a. 0;
  area = λ a. 4160;
  capacity = λ a. 32768;
  used = λ a. 64;
  live = λ a. 1;
  arena_of = λ p. 4096;
  arena = 4096;
  arenas = 4096;
  free_arenas = 0;
  free_arena_count = 0;
  returned = [];
}

abbrev one_block : Block
one_block = record { object = 4168; slot = 64; home = 4096 }

-- The next object follows the first, and once both are gone the arena starts again.
two_objects : (arena_allocate 32768 64 56 0 one_arena).pointer ≡ 4232
unfolding arena_allocate arena_new bump
two_objects = refl

starts_again : (free_chunked 4168 one_arena).used 4096 ≡ 0
unfolding free_chunked arena_recycle
starts_again = refl

one_arena-IsSound : IsSound 32768 one_arena (one_block ∷ [])
one_arena-IsSound = record {
  owned = 4096 ∷ [];
  kept = [];
  owned_once = (refl, tt);
  no_null = refl;
  free_list = refl;
  kept_once = tt;
  kept_count = (refl, omega arith);
  kept_idle = λ a h. cc;
  current = λ z. refl;
  areas = λ a h. ground arith;
  separate = λ a b x y n. absurd (n (ground arith));
  within = ((refl, omega arith, omega arith, refl, omega arith), tt);
  apart = (tt, tt);
}

free_chunked-IsSound_example : IsSound 32768 (free_chunked 4168 one_arena) []
free_chunked-IsSound_example =
    free_chunked-IsSound 32768 (omega arith) one_arena (one_block ∷ []) 4168 one_arena-IsSound refl

arena_allocate-Allocates_example :
    Allocates 32768 56 0 (one_block ∷ []) (arena_allocate 32768 64 56 0 one_arena)
arena_allocate-Allocates_example =
    arena_allocate-Allocates 32768 64 0 one_arena (one_block ∷ []) one_arena-IsSound (omega arith)
      (λ ne. absurd (ne refl)) 56 (omega arith)
