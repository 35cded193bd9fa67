-- ===== src/Counting/Sound.antt =====
-- When the counts of a heap are sound, over the list of its objects.
use am_lang_core.Base.{
  ℕ, suc, ◌+◌, ◌^◌, ◌<◌, ◌≡◌, ◌≢◌, Bool, true, false, not, ◌&&◌, ◌||◌, List, [], ◌∷◌, ◌++◌, All,
  ◌==◌, ltb, if◌then◌else◌,
}
use am_lang_core.Values.{NullableValue}
use am_lang_core.Counting.Fields.{put}
use am_lang_core.Counting.Chain.{has, Distinct, IsChain}
use am_lang_core.Counting.Ledger.{total}
use am_lang_core.Counting.{
  Shape, Release, no_release, array_release, data_release, Elements, primitive_elements,
  object_elements, any_elements, Memory, owns, is_interface_type, is_class_type,
}

-- The objects that a row of slots holds.
abbrev pub held_values : List NullableValue → List ℕ
held_values [] = []
held_values (v ∷ vs) = if owns v then v.value ∷ held_values vs else held_values vs

abbrev pub held_pointers : List ℕ → List ℕ
held_pointers [] = []
held_pointers (p ∷ ps) = if p == 0 then held_pointers ps else p ∷ held_pointers ps

abbrev pub held_elements : Elements → List ℕ
held_elements primitive_elements = []
held_elements (object_elements ps) = held_pointers ps
held_elements (any_elements vs) = held_values vs

abbrev pub held_by_release : Release → Elements → List ℕ
held_by_release no_release es = []
held_by_release data_release es = []
held_by_release array_release es = held_elements es

-- Given back, or about to be.
abbrev pub gone : Memory → ℕ → Bool
gone m p = m.pending_deallocation p || has p m.freed

-- One more holder of `p`.
abbrev pub plus : (ℕ → ℕ) → ℕ → ℕ → ℕ
plus f p = put f p (suc (f p))

module _ (shape : ℕ → Shape) where
  abbrev pub has_slots : ℕ → Bool
  has_slots q = is_class_type (shape q).type_of_class && ltb 0 (shape q).object_property_count

  -- What an object holds as properties and array elements.
  abbrev pub slots_of : Memory → ℕ → List ℕ
  slots_of m q =
      held_by_release (shape q).release (m.elements q)
      ++ (if has_slots q then held_values (m.properties q) else [])

  -- What an interface wrapper holds.
  abbrev pub wraps_of : ℕ → List ℕ
  wraps_of q =
      if is_interface_type (shape q).type_of_class
      then held_pointers ((shape q).implementation_object ∷ [])
      else []

  -- An immortal object has a reference that is never given up.
  abbrev pub pin : ℕ → ℕ
  pin p = if (shape p).immortal then 1 else 0

  -- The counts of the heap are sound, where `w` and `s` say what each object holds by reference and
  -- by property, `r` and `o` how often an object is held from outside, and the list is that of the
  -- isolate's property-referenced objects. What the busy object holds is left open.
  pub record IsSound (objects : List ℕ) (busy : ℕ) (m : Memory) (w s : ℕ → List ℕ) (r o : ℕ → ℕ)
      (list : List ℕ) : Type 0 where
    pub chain : IsChain m.next m.prev 0 m.first_object list
    pub distinct : Distinct list
    pub listed :
        (p : ℕ)
        → has p list
          ≡ (has p objects && not (shape p).immortal && not (m.property_reference_count p == 0))
    pub unlinked : (p : ℕ) → has p objects ≡ true → has p list ≡ false → m.prev p ≡ 0
    pub references :
        (p : ℕ) → has p objects ≡ true → m.reference_count p ≡ total p w objects + r p + pin p
    pub properties :
        (p : ℕ)
        → has p objects ≡ true
        → (shape p).immortal ≡ false
        → m.property_reference_count p ≡ total p s objects + o p
    pub small :
        (p : ℕ)
        → has p objects ≡ true
        → (m.reference_count p < 2 ^ 32) × (m.property_reference_count p < 2 ^ 32)
    pub dead :
        (p : ℕ)
        → has p objects ≡ true
        → gone m p ≡ true
        → (m.reference_count p ≡ 0) × (m.property_reference_count p ≡ 0)
    pub alive :
        (p : ℕ)
        → has p objects ≡ true
        → gone m p ≡ false
        → 0 < m.reference_count p + m.property_reference_count p
    pub holds :
        (q : ℕ)
        → has q objects ≡ true
        → gone m q ≡ false
        → q ≢ busy
        → (w q ≡ wraps_of q) × (s q ≡ slots_of m q)
    pub closed :
        (q : ℕ)
        → has q objects ≡ true
        → All (λ p. has p objects ≡ true) (w q) × All (λ p. has p objects ≡ true) (s q)
