-- ===== src/Arenas.antt =====
-- The fast-lane arenas of an isolate, src/native-c/libc/core.c: `__amlc_arena_new`,
-- `__amlc_arena_allocate`, `__amlc_arena_recycle` and `__amlc_free_object_in`.
-- Pointers have 8 bytes. A field of an arena is a function of its address, and what `malloc` returns is an
-- argument, 0 where no memory is left. The field `area` is `data` of the source.
pub mod Sound
pub mod Free
mod Tests
use am_lang_core.Base.{
  ℕ, zero, suc, ◌+◌, ◌*◌, ◌/◌, ◌%◌, ◌^◌, Bool, not, List, [], ◌∷◌, ◌==◌, ltb, ◌||◌, if◌then◌else◌,
}
use am_lang_core.Counting.{down, up}
use am_lang_core.Counting.Fields.{put, put_if}

-- `AMLC_ARENA_ROUND` on a `size_t`
abbrev pub round : ℕ → ℕ
round n = (n + 7) % 2 ^ 64 / 8 * 8

-- `AMLC_ARENA_KEEP_FREE`
abbrev pub keep_free : ℕ
keep_free = 4

-- The fields of the arenas and of the isolate. `arena_of` is the word before an object, and `returned`
-- lists the arenas given back to the system, newest first.
pub record Arenas : Type 0 where
  pub next : ℕ → ℕ
  pub prev : ℕ → ℕ
  pub next_free : ℕ → ℕ
  pub area : ℕ → ℕ
  pub capacity : ℕ → ℕ
  pub used : ℕ → ℕ
  pub live : ℕ → ℕ
  pub arena_of : ℕ → ℕ
  pub arena : ℕ
  pub arenas : ℕ
  pub free_arenas : ℕ
  pub free_arena_count : ℕ
  pub returned : List ℕ

-- A pointer that a call returns, and the state behind it.
pub record Made : Type 0 where
  pub pointer : ℕ
  pub state : Arenas

abbrev pub slot_of : ℕ → ℕ
slot_of size = (round 8 + round size) % 2 ^ 64

-- `__amlc_arena_recycle`
unfoldable pub arena_recycle : ℕ → Arenas → Arenas
arena_recycle a s =
    let reset = record s { used = put s.used a 0 } in
    if a == s.arena
    then reset
    else if ltb s.free_arena_count keep_free
    then record reset {
      next_free = put s.next_free a s.free_arenas;
      free_arenas = a;
      free_arena_count = up s.free_arena_count;
    }
    else record reset {
      next = put_if s.next (s.prev a) (s.next a);
      arenas = if s.prev a == 0 then s.next a else s.arenas;
      prev = put_if s.prev (s.next a) (s.prev a);
      returned = a ∷ s.returned;
    }

-- `__amlc_free_object_in` on an object of an arena
unfoldable pub free_chunked : ℕ → Arenas → Arenas
free_chunked obj s =
    let a = s.arena_of obj in
    let dropped = record s { live = put s.live a (down (s.live a)) } in
    if dropped.live a == 0 then arena_recycle a dropped else dropped

-- The object at the end of what an arena has given out.
unfoldable pub bump : ℕ → ℕ → Arenas → Made
bump a slot s =
    let obj = s.area a + s.used a + round 8 in
    record {
      pointer = obj;
      state = record s {
        used = put s.used a (s.used a + slot);
        live = put s.live a (up (s.live a));
        arena_of = put s.arena_of obj a;
      };
    }

-- The size of an arena, that of `struct _aarena`, and the block that `malloc` returns.
module _ (arena_size header : ℕ) where
  -- `__amlc_arena_new`
  unfoldable pub arena_new : ℕ → Arenas → Made
  arena_new block s =
      let a = s.free_arenas in
      if not (a == 0)
      then record {
        pointer = a;
        state = record s {
          free_arenas = s.next_free a;
          free_arena_count = down s.free_arena_count;
          next_free = put s.next_free a 0;
          used = put s.used a 0;
        };
      }
      else if block == 0
      then record { pointer = 0; state = s }
      else record {
        pointer = block;
        state = record s {
          area = put s.area block (round (block + header));
          capacity = put s.capacity block arena_size;
          used = put s.used block 0;
          live = put s.live block 0;
          next_free = put s.next_free block 0;
          next = put s.next block s.arenas;
          prev = put_if (put s.prev block 0) s.arenas block;
          arenas = block;
        };
      }

  -- `__amlc_arena_allocate`
  unfoldable pub arena_allocate : (size block : ℕ) → Arenas → Made
  arena_allocate size block s =
      let slot = slot_of size in
      let made = arena_new block s in
      if ltb arena_size slot
      then record { pointer = 0; state = s }
      else if (s.arena == 0) || ltb (s.capacity s.arena) (s.used s.arena + slot)
      then if made.pointer == 0
        then record { pointer = 0; state = made.state }
        else bump made.pointer slot (record made.state { arena = made.pointer })
      else bump s.arena slot s
