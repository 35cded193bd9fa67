-- ===== src/Counting/Assign.antt =====
-- `__set_property` of src/native-c/libc/core_inline_functions.h: writing a property keeps the counts exact.
use am_lang_core.Base.{
  ℕ, ◌+◌, ◌^◌, ◌<◌, ◌≤◌, ◌≡◌, ◌≢◌, refl, sym, ◌∙◌, true, false, List, [], ◌∷◌, ◌++◌, arith, All,
  length, get_or, set, if◌then◌else◌, Bool-cases, inl, inr,
}
use am_lang_core.Values.{NullableValue}
use am_lang_core.Counting.Fields.{put, put_at}
use am_lang_core.Counting.Chain.{has, Distinct}
use am_lang_core.Counting.Ledger.{count, total, total_mono, living}
use am_lang_core.Counting.Sound.{
  gone, plus, IsSound, held_values, held_by_release, has_slots, slots_of,
}
use am_lang_core.Counting.Frame.{Frame, Outcome, Frame-then}
use am_lang_core.Counting.Decrease.{decrease-IsGood, quiet}
use am_lang_core.Counting.Exact.{IsExact, Settles, live_wraps, live_slots, settled}
use am_lang_core.Counting.Edges.{
  count-append, count-set, All-set, All-get_or, All-append, All-append_inv, exchange, open_lem,
  close_lem, write_properties,
}
use am_lang_core.Counting.Acquire.{acquire_property}
use am_lang_core.Counting.{
  Shape, by_property, Memory, owns, no_value, decrease, increase_property_reference_count,
  set_property,
}

nothing_owned : owns no_value ≡ false
unfolding owns
nothing_owned = refl

-- An operation takes holders away, but for those it adds itself.
shrinks :
    (objects : List ℕ) (m m' : Memory) (w s w' s' : ℕ → List ℕ) (x : ℕ)
    → has 0 objects ≡ false
    → Frame objects 0 m m' w s w' s'
    → total x s' objects ≤ total x s objects
shrinks objects m m' w s w' s' x no_null f = total_mono x s' s objects λ q h.
    elim (Bool-cases (gone m' q)) [
      | inl d ↦ elim (Bool-cases (gone m q)) [
        | inl before ↦ ground (arith, f.kept q h before)
        | inr new ↦ ground (arith, f.emptied q h new d)
      ]
      | inr there ↦ ground (arith, f.spared q h there)
    ]

module _ (shape : ℕ → Shape) (objects : List ℕ) (apart : Distinct objects)
    (no_null : has 0 objects ≡ false) (r o : ℕ → ℕ) (obj : ℕ) (h : has obj objects ≡ true)
    (held : 0 < r obj) where
  alive : has obj objects ≡ true → 0 < r obj
  alive e = held

  -- What is held from outside is not gone.
  held_there :
      (busy p : ℕ) (m : Memory) (w s : ℕ → List ℕ) (o' : ℕ → ℕ) (list : List ℕ)
      → IsSound shape objects busy m w s r o' list
      → has p objects ≡ true
      → 0 < r p
      → gone m p ≡ false
  held_there busy p m w s o' list v hp some = ground (arith, v.dead p, v.references p hp)

  -- One more holder, if there is a value to hold.
  abbrev plus_if : NullableValue → ℕ → ℕ
  plus_if v = if owns v then plus o v.value else o

  module _ (m : Memory) (w s : ℕ → List ℕ) (list : List ℕ) (fuel : ℕ) where
    release_old :
        (old : NullableValue)
        → IsSound shape objects obj m w s r (plus_if old) list
        → (owns old ≡ true → has old.value objects ≡ true)
        → living (gone m) objects < fuel
        → Outcome shape objects obj 0 m w s r o
            (if owns old then decrease shape fuel by_property old.value m else m)
    release_old old v member few = elim (Bool-cases (owns old)) [
      | inl holds ↦
          let good = decrease-IsGood shape objects apart no_null obj fuel in
          let v' : IsSound shape objects obj m w s r (plus o old.value) list = rw holds at v in
          rw holds (good.property old.value m w s r o list v' (member holds) few alive)
      | inr free ↦
          let v' : IsSound shape objects obj m w s r o list = rw free at v in
          rw free (
            quiet shape objects apart no_null obj obj h r o alive m m w s list refl refl refl refl
              refl v')
    ]

    take_new :
        (new : NullableValue)
        → IsSound shape objects obj m w s r o list
        → (owns new ≡ true
            → (has new.value objects ≡ true)
              × (0 < r new.value)
              × ((shape new.value).immortal ≡ false
                  → m.property_reference_count new.value + 1 < 2 ^ 32))
        → Outcome shape objects obj 0 m w s r
            (plus_if new)
            (if owns new then increase_property_reference_count shape new.value m else m)
    take_new new v room = elim (Bool-cases (owns new)) [
      | inl holds ↦
          let (member, some, small) = room holds in
          let there = held_there obj new.value m w s o list v member some in
          rw holds (
            acquire_property shape objects apart no_null obj m w s r o list new.value member there
              small alive v)
      | inr free ↦ rw free (
          quiet shape objects apart no_null obj obj h r o alive m m w s list refl refl refl refl
            refl v)
    ]

  -- A value may be written that the caller has a reference of, if the count has room for it.
  abbrev pub Writable : Memory → NullableValue → Type 0
  Writable m v =
      owns v ≡ true
      → (has v.value objects ≡ true)
        × (0 < r v.value)
        × (total v.value (live_slots shape m) objects + o v.value + 1 < 2 ^ 32)

  -- What a write to a property does: the counts are exact, the slot holds the value, and no other
  -- slot of an object that is left has changed.
  pub record Written (m : Memory) (index : ℕ) (v : NullableValue) (m' : Memory) : Type 0 where
    pub settles : Settles shape objects m r o m'
    pub stored : m'.properties obj ≡ set (m.properties obj) index v
    pub others :
        (q : ℕ)
        → has q objects ≡ true
        → gone m' q ≡ false
        → (q ≢ obj → m'.properties q ≡ m.properties q) × (m'.elements q ≡ m.elements q)

  module _ (m : Memory) (index fuel : ℕ) (v : NullableValue) (e : IsExact shape objects m r o)
      (slotted : has_slots shape obj ≡ true) (inside : index < length (m.properties obj))
      (few : living (gone m) objects < fuel) (fits : Writable m v) where
    abbrev front : List ℕ
    front = held_by_release (shape obj).release (m.elements obj)

    abbrev row : NullableValue → List ℕ
    row x = front ++ held_values (set (m.properties obj) index x)

    abbrev old : NullableValue
    old = get_or (m.properties obj) index no_value

    there : gone m obj ≡ false
    there = held_there 0 obj m (live_wraps shape m) (live_slots shape m) o e.list e.sound h held

    slots_are : live_slots shape m obj ≡ front ++ held_values (m.properties obj)
    slots_are = rw (there, slotted) refl

    rows :
        (x : ℕ) (a : NullableValue)
        → count x (row a) + count x (held_values (old ∷ []))
          ≡ count x (live_slots shape m obj) + count x (held_values (a ∷ []))
    rows x a = rw slots_are (
        omega (
          arith,
          count-append x front (held_values (set (m.properties obj) index a)),
          count-append x front (held_values (m.properties obj)),
          count-set x index a (m.properties obj) inside,
        ))

    members :
        (a : NullableValue)
        → (owns a ≡ true → has a.value objects ≡ true)
        → All (λ p. has p objects ≡ true) (row a)
    members a new =
        let all =
          All-append_inv (λ p. has p objects ≡ true) front (held_values (m.properties obj))
            (rw (sym slots_are) (e.sound.closed obj h).1) in
        All-append _ front _ all.0 (All-set _ index a (m.properties obj) new all.1)

    old_member : owns old ≡ true → has old.value objects ≡ true
    old_member =
        let all =
          All-append_inv (λ p. has p objects ≡ true) front (held_values (m.properties obj))
            (rw (sym slots_are) (e.sound.closed obj h).1) in
        All-get_or (λ p. has p objects ≡ true) index (m.properties obj) inside all.1

    abbrev blanked : ℕ → List ℕ
    blanked = put (live_slots shape m) obj (row no_value)

    blank-IsSound : IsSound shape objects obj m (live_wraps shape m) blanked r (plus_if old) e.list
    blank-IsSound =
        exchange shape objects apart no_null obj m (live_wraps shape m) (live_slots shape m) r o
          e.list (row no_value) (plus_if old) h (members no_value (λ z. cc nothing_owned))
          (λ x. ground (arith, rows x no_value, nothing_owned))
          (open_lem shape objects apart no_null obj m (live_wraps shape m) (live_slots shape m) r o
            e.list e.sound)

    released_lem :
        Outcome shape objects obj 0 m
          (live_wraps shape m)
          blanked
          r
          o
          (if owns old then decrease shape fuel by_property old.value m else m)
    released_lem =
        release_old m (live_wraps shape m) blanked e.list fuel old blank-IsSound old_member few

    abbrev released : Memory
    released = if owns old then decrease shape fuel by_property old.value m else m

    room :
        owns v ≡ true
        → (shape v.value).immortal ≡ false
        → released.property_reference_count v.value + 1 < 2 ^ 32
    room holds mortal =
        let out = released_lem in
        let (member, some, small) = fits holds in
        let less =
          shrinks objects m released (live_wraps shape m) blanked out.wraps out.slots v.value
            no_null out.frame in
        let before = blank-IsSound.properties v.value member mortal in
        let exact = e.sound.properties v.value member mortal in
        let after = out.sound.properties v.value member mortal in ground arith

    taken_lem :
        Outcome shape objects obj 0 released released_lem.wraps released_lem.slots r
          (plus_if v)
          (if owns v then increase_property_reference_count shape v.value released else released)
    taken_lem =
        let out = released_lem in
        take_new released out.wraps out.slots out.list fuel v out.sound
          λ holds. ((fits holds).0, (fits holds).1, room holds)

    abbrev taken : Memory
    taken = if owns v then increase_property_reference_count shape v.value released else released

    -- Writing a property of an object that the caller has a reference of, with a value that the caller
    -- may hand out, while the counts are exact and with more fuel than objects: the counts are exact
    -- afterwards, the slot holds the value, and no other slot of an object that is left has changed,
    -- whatever the release of the old value set off.
    pub set_property-Written : Written m index v (set_property shape fuel obj index v m)
    unfolding set_property
    set_property-Written =
        let a = released_lem in
        let b = taken_lem in
        let f : Frame objects 0 m taken (live_wraps shape m) blanked b.wraps b.slots =
          Frame-then objects m released taken (live_wraps shape m) blanked a.wraps a.slots b.wraps
            b.slots no_null a.frame b.frame in
        let left = held_there obj obj taken b.wraps b.slots (plus_if v) b.list b.sound h held in
        let same = f.spared obj h left in
        let vs = set (taken.properties obj) index v in
        let stored : vs ≡ set (m.properties obj) index v = rw same.2 refl in
        let m' = record taken { properties = put taken.properties obj vs } in
        let slots_after : b.slots obj ≡ row no_value =
          same.1 ∙ put_at (live_slots shape m) obj (row no_value) in
        let filled =
          exchange shape objects apart no_null obj taken b.wraps b.slots r (plus_if v) b.list
            (row v) o h (members v (λ z. (fits z).0))
            (λ x. rw slots_after (ground (arith, rows x v, rows x no_value, nothing_owned)))
            b.sound in
        let written =
          write_properties shape objects apart no_null obj taken b.wraps (put b.slots obj (row v)) r
            o b.list vs filled in
        let slots_now : slots_of shape m' obj ≡ row v =
          rw (slotted, put_at taken.properties obj vs, same.3, stored) refl in
        let closed =
          close_lem shape objects apart no_null obj m' b.wraps (put b.slots obj (row v)) r o b.list
            (same.0 ∙ rw there refl) (put_at b.slots obj (row v) ∙ sym slots_now) written in
        record {
          settles = record {
            exact = record {
              list = b.list;
              sound =
                  settled shape objects no_null m' b.wraps (put b.slots obj (row v)) r o b.list
                    closed
                    λ q hq d.
                      let apart_from : q ≢ obj = λ z. ground arith in
                      elim (Bool-cases (gone m q)) [
                        | inl before ↦
                            let k = f.kept q hq before (λ z. ground arith) in ground arith
                        | inr new ↦ let k = f.emptied q hq new d in ground arith
                      ];
              freed_once = λ q hq. ground (arith, f.once q, e.freed_once q hq);
            };
            stays = f.stays;
            allocated = f.allocated;
          };
          stored = put_at taken.properties obj vs ∙ stored;
          others = λ q hq d. let k = f.spared q hq d in (λ ne. ground (arith, k.2), k.3);
        }
