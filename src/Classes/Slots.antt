-- ===== src/Classes/Slots.antt =====
-- Static properties: every class has a range of slots of its own.
use am_lang_core.Base.{ℕ, ◌+◌, ◌≤◌, List, [], ◌∷◌, arith}
use am_lang_core.Classes.{ClassStatic, Registry, register_class}

-- The start of the program.
abbrev pub no_classes : Registry
no_classes = record { registered = []; static_slot_count = 0 }

-- The startup registers one class after the other.
unfoldable pub register_all : Registry → List ClassStatic → Registry
register_all r [] = r
register_all r (cls ∷ classes) = register_all (register_class r cls) classes

-- Every class lies in front of the given slot, and the ones registered before it in front of it.
abbrev Stacked : List ClassStatic → ℕ → Type 0
Stacked [] total = Unit {0}
Stacked (cls ∷ older) total =
    (cls.slot_base + cls.static_properties_count ≤ total) × Stacked older cls.slot_base

-- The static properties of all classes together.
abbrev pub properties_of : List ClassStatic → ℕ
properties_of [] = 0
properties_of (cls ∷ classes) = cls.static_properties_count + properties_of classes

Stacked-le : (classes : List ClassStatic) {a b : ℕ} → Stacked classes a → a ≤ b → Stacked classes b
Stacked-le [] h le = tt
Stacked-le (cls ∷ older) h le = (omega arith, h.1)
