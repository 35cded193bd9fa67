-- ===== src/CopyTable.antt =====
-- The table of a deep copy, from each source object to its copy: `__amlc_copy_ctx` and
-- `__amlc_copy_lookup`, `__amlc_copy_insert_raw` and `__amlc_copy_record` of src/native-c/libc/core.c.
-- Open addressing with linear probing. Pointers are numbers, the null pointer is 0, and no table is
-- the empty list. `& (cap - 1)` is written as a remainder, since `cap` is a power of two; a sum of the
-- probing that wraps keeps its remainder. `cap` and `count` are unsigned ints: the size that follows
-- 2 ^ 31 is 0.
pub mod Probe
pub mod Insert
pub mod Record
mod Tests
use am_lang_core.Base.{
  ℕ, zero, suc, ◌+◌, ◌*◌, ◌/◌, ◌%◌, ◌^◌, Bool, true, false, ◌||◌, List, [], ◌∷◌, ltb, ◌==◌,
  if◌then◌else◌, get_or, set, replicate,
}

pub record CopyPair : Type 0 where
  pub src : ℕ
  pub dst : ℕ

abbrev pub empty_pair : CopyPair
empty_pair = record { src = 0; dst = 0 }

pub record CopyCtx : Type 0 where
  pub tab : List CopyPair
  pub cap : ℕ
  pub count : ℕ
  pub failed : Bool  -- `failed_class` set to "(out of memory)"

abbrev pub at : List CopyPair → ℕ → CopyPair
at tab k = get_or tab k empty_pair

-- The slot where the probing for an object starts.
unfoldable pub slot_of : ℕ → ℕ → ℕ
slot_of cap src = src / 16 % 2 ^ 32 % cap

-- `for (i = 0; i < cap; i++)` with the rounds left as fuel.
unfoldable pub lookup_loop : ℕ → List CopyPair → (cap h i src : ℕ) → ℕ
lookup_loop zero tab cap h i src = 0
lookup_loop (suc rounds) tab cap h i src =
    let p = at tab ((h + i) % cap) in
    let rest = lookup_loop rounds tab cap h (i + 1) src in
    if p.src == 0 then 0 else if p.src == src then p.dst else rest

unfoldable pub copy_lookup : CopyCtx → ℕ → ℕ
copy_lookup ctx src =
    if ctx.cap == 0 then 0 else lookup_loop ctx.cap ctx.tab ctx.cap (slot_of ctx.cap src) 0 src

unfoldable pub insert_loop : ℕ → List CopyPair → (cap h i src dst : ℕ) → List CopyPair
insert_loop zero tab cap h i src dst = tab
insert_loop (suc rounds) tab cap h i src dst =
    let k = (h + i) % cap in
    let rest = insert_loop rounds tab cap h (i + 1) src dst in
    if (at tab k).src == 0 then set tab k (record { src = src; dst = dst }) else rest

unfoldable pub copy_insert_raw : List CopyPair → (cap src dst : ℕ) → List CopyPair
copy_insert_raw tab cap src dst = insert_loop cap tab cap (slot_of cap src) 0 src dst

-- The loop that moves the old pairs into the new table.
unfoldable pub rehash : List CopyPair → List CopyPair → ℕ → List CopyPair
rehash [] ntab ncap = ntab
rehash (p ∷ old) ntab ncap =
    rehash old (if p.src == 0 then ntab else copy_insert_raw ntab ncap p.src p.dst) ncap

-- The context with a table of twice the size.
unfoldable pub grown : CopyCtx → CopyCtx
grown ctx =
    let ncap = if ctx.cap == 0 then 64 else ctx.cap * 2 % 2 ^ 32 in
    record ctx { tab = rehash ctx.tab (replicate ncap empty_pair) ncap; cap = ncap }

unfoldable pub recorded : CopyCtx → ℕ → ℕ → CopyCtx
recorded ctx src dst = record ctx {
  tab = copy_insert_raw ctx.tab ctx.cap src dst;
  count = (ctx.count + 1) % 2 ^ 32;
}

-- `memory` says whether `calloc` succeeds.
unfoldable pub copy_record : (memory : Bool) → CopyCtx → ℕ → ℕ → CopyCtx
copy_record memory ctx src dst =
    if (ctx.cap == 0) || ltb ctx.cap ((ctx.count + 1) * 2 % 2 ^ 32)
    then (if memory then recorded (grown ctx) src dst else record ctx { failed = true })
    else recorded ctx src dst
