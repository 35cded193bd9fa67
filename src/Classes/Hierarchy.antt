-- ===== src/Classes/Hierarchy.antt =====
-- `is` tests on classes follow the chain of base classes.
use am_lang_core.Base.{
  ℕ, zero, suc, ◌+◌, ◌<◌, ◌≡◌, ◌≢◌, ◌↔◌, ◌⊎◌, inl, inr, refl, Bool, true, false, Bool-cases, ==_iff,
  some, List, [], ◌∷◌, arith, ◌==◌,
}
use am_lang_core.Classes.{
  IfaceImplementation, ClassStore, is_descendant_of, declares, implements_interface,
}

-- The class itself and its base classes, up to the root.
pub data Extends (classes : ClassStore) (target : ℕ) : ℕ → Type 0 where
  same : {cls : ℕ} → cls ≡ target → Extends classes target cls
  above :
      {cls : ℕ}
      → (classes cls).base ≢ 0
      → Extends classes target (classes cls).base
      → Extends classes target cls

-- The number of base classes above a class: the chain ends.
abbrev pub HasDepth : ClassStore → ℕ → ℕ → Type 0
HasDepth classes zero cls = (classes cls).base ≡ 0
HasDepth classes (suc n) cls = ((classes cls).base ≢ 0) × HasDepth classes n (classes cls).base

module _ (classes : ClassStore) where
  Extends-cases :
      {target cls : ℕ}
      → Extends classes target cls
      → (cls ≡ target) ⊎ (((classes cls).base ≢ 0) × Extends classes target (classes cls).base)
  Extends-cases (same e) = inl e
  Extends-cases (above more e) = inr (more, e)

  -- With more fuel than base classes, the test ends, and answers true exactly when the second
  -- class is the first one or a base class of it, however far up.
  pub is_descendant_of-Extends :
      (fuel depth cls base : ℕ)
      → HasDepth classes depth cls
      → depth < fuel
      → (b : Bool) × (is_descendant_of fuel classes cls base ≡ some b)
        × ((b ≡ true) ↔ Extends classes base cls)
  unfolding is_descendant_of
  is_descendant_of-Extends zero depth cls base h enough = absurd (omega arith)
  is_descendant_of-Extends (suc fuel) zero cls base h enough = elim (Bool-cases (cls == base)) [
    | inl hit ↦ (true, rw hit refl, ((λ e. same ((==_iff _ _).0 hit)), (λ e. refl)))
    | inr other ↦ (
      false,
      ground arith,
      (
        (λ e. cc),
        (λ e. absurd (elim (Extends-cases e) [ inl hit ↦ ground arith | inr up ↦ up.0 h ])),
      ),
    )
  ]
  is_descendant_of-Extends (suc fuel) (suc n) cls base h enough =
      let (b, run, iff) =
        is_descendant_of-Extends fuel n (classes cls).base base h.1 (omega arith) in
      elim (Bool-cases (cls == base)) [
        | inl hit ↦ (true, rw hit refl, ((λ e. same ((==_iff _ _).0 hit)), (λ e. refl)))
        | inr other ↦ (
          b,
          ground arith,
          (
            (λ e. above h.0 (iff.0 e)),
            (λ e. elim (Extends-cases e) [ inl hit ↦ absurd (ground arith) | inr up ↦ iff.1 up.1 ]),
          ),
        )
      ]

-- A class declares the interface in its own table.
abbrev pub Lists : ℕ → List IfaceImplementation → Type 0
Lists iface [] = ⊥
Lists iface (impl ∷ impls) = (impl.iface_class ≡ iface) ⊎ Lists iface impls

declares-Lists :
    (iface : ℕ) (impls : List IfaceImplementation)
    → (declares iface impls ≡ true) ↔ Lists iface impls
unfolding declares
declares-Lists iface [] = ((λ h. absurd (cc)), λ h. absurd h)
declares-Lists iface (impl ∷ impls) =
    let rest = declares-Lists iface impls in
    elim (Bool-cases (impl.iface_class == iface)) [
      | inl hit ↦ ((λ h. inl ((==_iff _ _).0 hit)), λ h. rw hit refl)
      | inr other ↦ (
        (λ h. inr (rest.0 (rw other at h))),
        (λ h. rw other (elim h [ inl e ↦ absurd (ground arith) | inr later ↦ rest.1 later ])),
      )
    ]

module _ (classes : ClassStore) where
  -- The class or one of its base classes declares the interface.
  pub data Implements (iface : ℕ) : ℕ → Type 0 where
    own : {cls : ℕ} → Lists iface (classes cls).iface_implementations → Implements iface cls
    inherited :
        {cls : ℕ}
        → (classes cls).base ≢ 0
        → Implements iface (classes cls).base
        → Implements iface cls

  Implements-cases :
      {iface cls : ℕ}
      → Implements iface cls
      → (Lists iface (classes cls).iface_implementations)
        ⊎ (((classes cls).base ≢ 0) × Implements iface (classes cls).base)
  Implements-cases (own l) = inl l
  Implements-cases (inherited more i) = inr (more, i)

  -- With enough fuel for the chain of base classes and its end, the test ends, and answers true
  -- exactly when the class or a base class of it, however far up, declares the interface.
  pub implements_interface-Implements :
      (fuel depth iface cls : ℕ)
      → cls ≢ 0
      → HasDepth classes depth cls
      → depth + 1 < fuel
      → (b : Bool) × (implements_interface fuel classes iface cls ≡ some b)
        × ((b ≡ true) ↔ Implements iface cls)
  unfolding implements_interface
  implements_interface-Implements zero depth iface cls ne h enough = absurd (omega arith)
  implements_interface-Implements (suc zero) depth iface cls ne h enough = absurd (omega arith)
  implements_interface-Implements (suc (suc fuel)) zero iface cls ne h enough =
      let table = declares-Lists iface (classes cls).iface_implementations in
      elim (Bool-cases (declares iface (classes cls).iface_implementations)) [
        | inl hit ↦ (true, ground arith, ((λ e. own (table.0 hit)), (λ e. refl)))
        | inr other ↦ (
          false,
          ground arith,
          (
            (λ e. cc),
            (λ e. absurd (elim (Implements-cases e) [
              | inl l ↦ ground (arith, table.1 l)
              | inr up ↦ up.0 h
            ])),
          ),
        )
      ]
  implements_interface-Implements (suc (suc fuel)) (suc n) iface cls ne h enough =
      let table = declares-Lists iface (classes cls).iface_implementations in
      let (b, run, iff) =
        implements_interface-Implements (suc fuel) n iface (classes cls).base h.0 h.1
          (omega arith) in
      elim (Bool-cases (declares iface (classes cls).iface_implementations)) [
        | inl hit ↦ (true, ground arith, ((λ e. own (table.0 hit)), (λ e. refl)))
        | inr other ↦ (
          b,
          ground arith,
          (
            (λ e. inherited h.0 (iff.0 e)),
            (λ e. elim (Implements-cases e) [
              | inl l ↦ absurd (ground (arith, table.1 l))
              | inr up ↦ iff.1 up.1
            ]),
          ),
        )
      ]
