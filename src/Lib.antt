-- ===== src/Lib.antt =====
-- The native core of the AmLang library, the C code under src/native-c/libc: the runtime that
-- compiled AmLang programs are linked with.
--
-- The runtime passes tagged values between methods: a union of eight bytes with flags that say
-- which member counts. Objects of a class String keep a holder, the UTF-8 bytes with their hash,
-- their length in UTF-16 units and a UTF-16 view that is built when it is first needed. Boxed
-- numbers are tagged values whose methods print into new strings and parse them.
--
-- Values (Values.antt and below): `union _value`, `struct _nullable_value`, `enum _ctype` and the
-- flags of core.h, the flag helpers of core_inline_functions.h, `__any_null`, `__any_equals` and
-- `primitive_or_object_equals` of core.c, and the coercion of reflective writes in
-- Am/Lang/ClassRef.c. The union is one number, so a member that is written and another that is
-- read meet as on the host, little-endian or big-endian; the bytes beside a written member are
-- zero.
--
-- Text (Text.antt and below): the decoder `__utf8_decode`, `__utf8_utf16_length`, the string hash,
-- `struct _string_holder`, `__create_string`, `__string_wide` and the index conversions of core.c,
-- and the native methods of Am/Lang/String.c with `__concatenate_strings`. A buffer is the list of
-- its bytes, fewer than 2 ^ 32 - 3 of them, and a read behind it gives the terminating zero. An
-- allocation may fail, which is an input of each method that allocates; a method that uses a failed
-- allocation ends in `crash`.
-- Loops over a buffer take its length as fuel, which is enough since each step moves on by at
-- least one byte. The relation `Steps` describes the walk of the decoder, and every loop is shown
-- to follow it.
--
-- Numbers (Numbers.antt and below): Am/Lang/Byte.c, Short.c, Int.c, Long.c, UByte.c, UShort.c,
-- UInt.c and ULong.c. `sprintf`, `strtol` and `strtoul` of C are written out; twenty rounds print
-- any number of 64 bits. `long` has 64 bits and `char` is signed. The allocation of `toString`,
-- which it does not test, succeeds; what C leaves undefined, a text behind its buffer and a signed
-- overflow in `Long.parse`, is outside of what the results state.
--
-- Mailbox (Mailbox.antt and below): `struct _amailbox` and `__amlc_mailbox_*` of core.c, the queue
-- of messages between isolates, in the variant with a mutex. A function that holds the lock is one
-- step, the owner's sleep on the condition variable is part of the state, and a run is any sequence
-- of steps of any senders and the owner. The loop that discards what is left takes more rounds than
-- there are messages as fuel.
--
-- CopyTable (CopyTable.antt and below): `__amlc_copy_lookup`, `__amlc_copy_insert_raw` and
-- `__amlc_copy_record` of core.c, the table by which a deep copy of an object graph keeps sharing
-- and cycles. Each probing loop takes the size of the table as fuel, as the code does. The sizes
-- are unsigned ints and wrap around: a table of 2 ^ 31 slots that grows has none left.
--
-- Classes (Classes.antt and below): `is_descendant_of`, `implements_interface`, the search of
-- `__allocate_iface_object`, `__register_class` and the registry of reflected classes of core.c.
-- The walk up the base classes takes fuel; more than the number of base classes is enough. Slot
-- numbers are unsigned ints and wrap around.
--
-- Collector (Collector.antt and below): gc_graph.h and Am/Lang/GC.c, the collector of reference
-- cycles, up to the choice of the objects that it reclaims (Counting/Reclaim reclaims them). The
-- probing loops take the size of the table as fuel, the marking the number of nodes, since a node
-- comes into the queue once.
--
-- Arenas (Arenas.antt and below): the fast-lane arenas of core.c, `__amlc_arena_allocate`,
-- `__amlc_arena_new`, `__amlc_arena_recycle` and the arena branch of `__amlc_free_object_in`. The
-- size of an arena is a parameter below 2 ^ 32. An object of `Counting` that is `chunked` lives in
-- one.
--
-- Collection (Collection.antt and below): the whole of `Am_Lang_GC_collect_0`, which reads the
-- graph of Collector off the memory of Counting and reclaims what was not reached. The list of
-- objects takes fuel for each object on it, and the same fuel bounds the releases; more than the
-- number of objects that are left is enough. The trace output and the return value are left out.
-- Analysis is about the choice of the objects, on the heap alone; Kept is about the whole run.
--
-- Counting (Counting.antt and below): reference counting, `__increase_reference_count`,
-- `__decrease_reference_count`, `__increase_property_reference_count` and `__set_property` of
-- core_inline_functions.h, `__decrease_property_reference_count`, `__detach_object` and
-- `__deallocate_object` of core.c and `Am_Lang_Array__native_release_0` of Am/Lang/Array.c. Below
-- it, Reclaim is the end of `Am_Lang_GC_collect_0` of Am/Lang/GC.c: holding, clearing and
-- releasing what the analysis did not reach. Every field is a function of the object's address, an
-- address stands for one allocation, and the list of property-referenced objects is kept by its
-- `next` and `prev` fields. A release calls itself through what it detaches; its fuel is enough
-- when it is more than the number of objects that are left, since each nested call that goes on
-- detaches another one.
--
-- Not modelled: native release functions beside that of arrays, the list of arenas and its
-- release, the sweep at exit, exceptions and isolates; builds with FEATURE_FLOATING_POINT; output
-- to the console, files, sockets, processes and threads, which are calls of the operating system;
-- the platform variants beside src/native-c/libc; and the AmLang sources under src/am-lang.
mod Base
pub mod Arenas
pub mod Values
pub mod Text
pub mod Numbers
pub mod Mailbox
pub mod CopyTable
pub mod Classes
pub mod Collection
pub mod Collector
pub mod Counting
