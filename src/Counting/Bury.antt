-- ===== src/Counting/Bury.antt =====
-- `__deallocate_object` of src/native-c/libc/core.c: the object is detached and given back.
use am_lang_core.Base.{
  ℕ, ◌+◌, ◌%◌, ◌^◌, ◌<◌, ◌≡◌, ◌≢◌, refl, ◌∙◌, true, false, ◌&&◌, inl, inr, List, [], ◌∷◌, ◌++◌,
  arith, length, ◌==◌, ltb, if◌then◌else◌, Bool-cases,
}
use am_lang_core.Values.{NullableValue}
use am_lang_core.Counting.Fields.{put, put_at}
use am_lang_core.Counting.Chain.{has, Distinct}
use am_lang_core.Counting.Ledger.{count, living}
use am_lang_core.Counting.Sound.{
  gone, IsSound, held_values, held_pointers, held_by_release, slots_of, wraps_of,
}
use am_lang_core.Counting.Moves.{free_gone}
use am_lang_core.Counting.Frame.{bit, Outcome, GoodDecrease, Frame-refl}
use am_lang_core.Counting.Detach.{detach_lem}
use am_lang_core.Counting.{
  Shape, Elements, Release, no_release, array_release, data_release, Holder, Memory, free_object,
  down, is_plain, detach_object, deallocate_object, is_interface_type, is_class_type,
  has_no_release,
}
use am_lang_core.Collector.Collect.{ClassType, interface_type, class_type, function_reference}

-- `u`, with `p` on its way out.
abbrev pub marked : Memory → ℕ → Memory
marked u p = record u { pending_deallocation = put u.pending_deallocation p true }

plain_holds :
    (release : Release) (type : ClassType) (n impl : ℕ) (vs : List NullableValue) (es : Elements)
    → has_no_release release && (n == 0) && is_class_type type ≡ true
    → ((if is_interface_type type then held_pointers (impl ∷ []) else []) ≡ [])
      × (held_by_release release es
            ++ (if is_class_type type && ltb 0 n then held_values vs else [])
          ≡ [])
plain_holds no_release class_type n impl vs es h = (refl, ground arith)
plain_holds no_release interface_type n impl vs es h = ground arith
plain_holds no_release function_reference n impl vs es h = ground arith
plain_holds array_release type n impl vs es h = cc
plain_holds data_release type n impl vs es h = cc

-- A plain object holds nothing.
pub plain_empty :
    (shape : ℕ → Shape) (p : ℕ) (u : Memory)
    → is_plain shape p ≡ true
    → (wraps_of shape p ≡ []) × (slots_of shape u p ≡ [])
plain_empty shape p u h =
    plain_holds (shape p).release (shape p).type_of_class (shape p).object_property_count
      (shape p).implementation_object (u.properties p) (u.elements p) h

module _ (shape : ℕ → Shape) (objects : List ℕ) (apart : Distinct objects)
    (no_null : has 0 objects ≡ false) (busy : ℕ) (p : ℕ) (hp : has p objects ≡ true) (r o : ℕ → ℕ)
    (alive : has busy objects ≡ true → 0 < r busy) where
  -- From `m`, where `p` is on its way out, to `m'`, where it has been given back.
  pub record Buried (m : Memory) (w s : ℕ → List ℕ) (m' : Memory) : Type 0 where
    pub wraps : ℕ → List ℕ
    pub slots : ℕ → List ℕ
    pub list : List ℕ
    pub sound : IsSound shape objects busy m' wraps slots r o list
    pub stays : (q : ℕ) → gone m q ≡ true → gone m' q ≡ true
    pub kept :
        (q : ℕ)
        → has q objects ≡ true
        → gone m q ≡ true
        → q ≢ p
        → (wraps q ≡ w q)
          × (slots q ≡ s q)
          × (m'.properties q ≡ m.properties q)
          × (m'.elements q ≡ m.elements q)
    pub spared :
        (q : ℕ)
        → has q objects ≡ true
        → gone m' q ≡ false
        → (wraps q ≡ w q)
          × (slots q ≡ s q)
          × (m'.properties q ≡ m.properties q)
          × (m'.elements q ≡ m.elements q)
    pub emptied :
        (q : ℕ)
        → has q objects ≡ true
        → gone m q ≡ false
        → gone m' q ≡ true
        → (wraps q ≡ []) × (slots q ≡ [])
    pub itself : (wraps p ≡ []) × (slots p ≡ [])
    pub once :
        (q : ℕ)
        → count q m'.freed + bit (gone m q) ≡ count q m.freed + bit (gone m' q) + bit (q == p)
    pub allocated :
        (m'.allocation_count + length m'.freed) % 2 ^ 32
        ≡ (m.allocation_count + length m.freed) % 2 ^ 32

  bury :
      (m d : Memory) (w s : ℕ → List ℕ)
      → gone m p ≡ true
      → (out : Outcome shape objects busy p m w s r o d) → out.wraps p ≡ []
      → out.slots p ≡ []
      → Buried m w s (free_object p d)
  unfolding free_object
  bury m d w s dead out no_wraps no_slots =
      let f = out.frame in
      let dead' = f.stays p dead in
      record {
        wraps = out.wraps;
        slots = out.slots;
        list = out.list;
        sound =
            free_gone shape objects apart no_null busy d out.wraps out.slots r o out.list out.sound
              p (down d.allocation_count) dead';
        stays = λ q h. ground (arith, f.stays q h);
        kept = f.kept;
        spared = λ q h d'. f.spared q h (ground arith);
        emptied = λ q h a b. f.emptied q h a (ground arith);
        itself = (no_wraps, no_slots);
        once = λ q. ground (arith, f.once q);
        allocated = omega (arith, f.allocated);
      }

  pub deallocate_lem :
      (k : ℕ) (decrease : Holder → ℕ → Memory → Memory)
      → GoodDecrease shape objects busy k decrease
      → (u : Memory) (w s : ℕ → List ℕ) (list : List ℕ) → u.pending_deallocation p ≡ false
      → IsSound shape objects busy (marked u p) w s r o list
      → w p ≡ wraps_of shape p
      → s p ≡ slots_of shape u p
      → living (gone (marked u p)) objects < k
      → Buried (marked u p) w s (deallocate_object shape decrease p u)
  unfolding deallocate_object
  deallocate_lem k decrease good u w s list fresh v wrapped slotted few =
      let dead : gone (marked u p) p ≡ true = rw (put_at u.pending_deallocation p true) refl in
      elim (Bool-cases (is_plain shape p)) [
        | inl plain ↦
            let empty = plain_empty shape p u plain in
            rw (fresh, plain)
              (bury (marked u p) (marked u p) w s dead
                (record {
                  wraps = w;
                  slots = s;
                  list = list;
                  sound = v;
                  frame = Frame-refl objects p (marked u p) w s;
                })
                (wrapped ∙ empty.0) (slotted ∙ empty.1))
        | inr other ↦
            let d =
              detach_lem shape objects apart no_null busy k decrease good p hp r o alive u w s list
                fresh v wrapped slotted few in
            rw (fresh, other)
              (bury (marked u p) (detach_object shape decrease p u) w s dead d.outcome d.no_wraps
                d.no_slots)
      ]
