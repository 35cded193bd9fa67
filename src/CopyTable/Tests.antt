-- ===== src/CopyTable/Tests.antt =====
-- Runs of the copy table, and its theorems at concrete inputs.
use am_lang_core.Base.{ℕ, ◌≡◌, ◌≢◌, refl, inl, true, false, [], arith, ◌==◌, if◌then◌else◌}
use am_lang_core.CopyTable.{
  CopyCtx, slot_of, lookup_loop, insert_loop, copy_lookup, copy_insert_raw, rehash, recorded, grown,
  copy_record,
}
use am_lang_core.CopyTable.Record.{IsCtx, copy_lookup-copy_record}

abbrev no_copies : CopyCtx
no_copies = record { tab = []; cap = 0; count = 0; failed = false }

no_copies-IsCtx : IsCtx no_copies
no_copies-IsCtx = record { table = inl (refl, refl); counted = refl; half_full = omega arith }

copy_lookup-copy_record_example :
    IsCtx (copy_record true no_copies 4096 8192)
    × ((s : ℕ)
        → s ≢ 0
        → copy_lookup (copy_record true no_copies 4096 8192) s
          ≡ (if 4096 == s then 8192 else copy_lookup no_copies s))
copy_lookup-copy_record_example =
    copy_lookup-copy_record no_copies 4096 8192 no_copies-IsCtx (omega arith) tt (omega arith)

-- Two objects that start at one slot.
collides : slot_of 64 4096 ≡ slot_of 64 1024
unfolding slot_of
collides = refl

abbrev two_copies : CopyCtx
two_copies = copy_record true (copy_record true no_copies 4096 7) 1024 9

finds_both : copy_lookup two_copies 4096 ≡ 7
unfolding copy_lookup lookup_loop slot_of copy_record recorded grown copy_insert_raw rehash
    insert_loop
finds_both = refl

finds_second : copy_lookup two_copies 1024 ≡ 9
unfolding copy_lookup lookup_loop slot_of copy_record recorded grown copy_insert_raw rehash
    insert_loop
finds_second = refl
