-- ===== src/Classes/Interfaces.antt =====
-- Which table of functions an interface object dispatches through.
use am_lang_core.Base.{
  ℕ, ◌≡◌, ◌≢◌, ◌⊎◌, inl, inr, refl, sym, ap, Bool, not, ◌&&◌, Bool-cases, ==_iff, some, none,
  Option-cases, List, [], ◌∷◌, All, arith, ◌==◌,
}
use am_lang_core.Classes.{
  IfaceImplementation, ClassStore, exact_implementation, variant_implementation,
  find_implementation,
}
use am_lang_core.Classes.Hierarchy.{Lists}

-- The entry stands in the table.
abbrev pub Has : IfaceImplementation → List IfaceImplementation → Type 0
Has impl [] = ⊥
Has impl (i ∷ impls) = (impl ≡ i) ⊎ Has impl impls

-- The entry is of the interface, or of another variant of it.
abbrev pub Serves : ClassStore → ℕ → IfaceImplementation → Type 0
Serves classes iface impl =
    (impl.iface_class ≡ iface)
    ⊎ ((impl.iface_class ≢ 0) × ((classes impl.iface_class).statics ≡ (classes iface).statics))

exact_found :
    (iface : ℕ) (impls : List IfaceImplementation)
    → Lists iface impls
    → (impl : IfaceImplementation) × (exact_implementation iface impls ≡ some impl)
      × (impl.iface_class ≡ iface)
unfolding exact_implementation
exact_found iface [] l = absurd l
exact_found iface (i ∷ impls) l = elim (Bool-cases (i.iface_class == iface)) [
  | inl hit ↦ (i, rw hit refl, (==_iff _ _).0 hit)
  | inr other ↦
      rw other
        (exact_found iface impls (elim l [ inl e ↦ absurd (ground arith) | inr later ↦ later ]))
]

exact_sound :
    (iface : ℕ) (impls : List IfaceImplementation) (impl : IfaceImplementation)
    → exact_implementation iface impls ≡ some impl
    → Has impl impls × (impl.iface_class ≡ iface)
unfolding exact_implementation
exact_sound iface [] impl h = cc
exact_sound iface (i ∷ impls) impl h = elim (Bool-cases (i.iface_class == iface)) [
  | inl hit ↦ (inl (cc (rw hit at h)), ground (arith, (==_iff i.iface_class iface).0 hit))
  | inr other ↦ let rest = exact_sound iface impls impl (rw other at h) in (inr rest.0, rest.1)
]

abbrev pub NoneServes : ClassStore → ℕ → List IfaceImplementation → Type 0
NoneServes classes iface impls = All (λ impl. ¬ Serves classes iface impl) impls

module _ (classes : ClassStore) (iface : ℕ) where
  variant_hit : IfaceImplementation → Bool
  variant_hit impl =
      not (impl.iface_class == 0) && (classes impl.iface_class).statics == (classes iface).statics

  variant_sound :
      (impls : List IfaceImplementation) (impl : IfaceImplementation)
      → variant_implementation classes iface impls ≡ some impl
      → Has impl impls × Serves classes iface impl
  unfolding variant_implementation variant_hit
  variant_sound [] impl h = cc
  variant_sound (i ∷ impls) impl h = elim (Bool-cases (variant_hit i)) [
    | inl hit ↦
        let e : i ≡ impl = cc (rw hit at h) in
        (inl (sym e), rw (sym e) (inr (ground arith, ground arith)))
    | inr other ↦ let rest = variant_sound impls impl (rw other at h) in (inr rest.0, rest.1)
  ]

  variant_none :
      iface ≢ 0
      → (impls : List IfaceImplementation) → variant_implementation classes iface impls ≡ none
      → NoneServes classes iface impls
  unfolding variant_implementation variant_hit
  variant_none ne [] h = tt
  variant_none ne (i ∷ impls) h = elim (Bool-cases (variant_hit i)) [
    | inl hit ↦ absurd (cc (rw hit at h))
    | inr other ↦ (
      (λ s. elim s [
        | inl e ↦ ground (arith, ap (λ k. (classes k).statics) e)
        | inr v ↦ ground arith
      ]),
      variant_none ne impls (rw other at h),
    )
  ]

  -- The table of an interface object: an entry of the interface itself where the class has one; in
  -- any case an entry of the class's own table, of the interface or another variant of it; and none
  -- only where the class has no such entry.
  pub find_implementation-Serves :
      (cls : ℕ)
      → iface ≢ 0
      → (Lists iface (classes cls).iface_implementations
          → (impl : IfaceImplementation) × (find_implementation classes iface cls ≡ some impl)
            × (impl.iface_class ≡ iface))
        × ((impl : IfaceImplementation)
            → find_implementation classes iface cls ≡ some impl
            → Has impl (classes cls).iface_implementations × Serves classes iface impl)
        × (find_implementation classes iface cls ≡ none
            → NoneServes classes iface (classes cls).iface_implementations)
  unfolding find_implementation
  find_implementation-Serves cls ne =
      let impls = (classes cls).iface_implementations in
      (
        (λ l. let (impl, run, e) = exact_found iface impls l in (impl, ground arith, e)),
        (λ impl h. elim (Option-cases (exact_implementation iface impls)) [
          | inl miss ↦ variant_sound impls impl (rw (miss, find_implementation) at h)
          | inr (found, run) ↦
              let e : found ≡ impl = cc (rw (run, find_implementation) at h) in
              let s = exact_sound iface impls found run in rw (sym e) (s.0, inl s.1)
        ]),
        (λ h. elim (Option-cases (exact_implementation iface impls)) [
          | inl miss ↦ variant_none ne impls (rw (miss, find_implementation) at h)
          | inr (found, run) ↦ absurd (cc (rw (run, find_implementation) at h))
        ]),
      )
