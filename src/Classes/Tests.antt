-- ===== src/Classes/Tests.antt =====
-- Runs of the class functions, and their theorems at concrete inputs.
use am_lang_core.Base.{
  ℕ, ◌≡◌, ◌↔◌, refl, Bool, true, some, none, List, [], ◌∷◌, arith, ◌==◌, if◌then◌else◌,
}
use am_lang_core.Classes.{
  IfaceImplementation, AClass, ClassStore, is_descendant_of, declares, implements_interface,
  exact_implementation, variant_implementation, find_implementation, ClassStatic,
}
use am_lang_core.Classes.Hierarchy.{
  Extends, Implements, is_descendant_of-Extends, implements_interface-Implements, Lists,
}
use am_lang_core.Classes.Interfaces.{Has, Serves, NoneServes, find_implementation-Serves}

abbrev class_of : ℕ → ℕ → List IfaceImplementation → AClass
class_of statics base impls = record {
  name = 97 ∷ [];
  statics = statics;
  base = base;
  iface_implementations = impls;
}

-- Class 1 is the root, class 2 extends it and declares interface 5; 6 is a variant of 5.
abbrev sample : ClassStore
sample p =
    if p == 1
    then class_of 11 0 []
    else if p == 2
    then class_of 12 1 (record { iface_class = 5; functions = 77 } ∷ [])
    else if p == 3
    then class_of 13 2 []
    else class_of 15 0 []

is_descendant_of-Extends_example :
    (b : Bool) × (is_descendant_of 4 sample 3 1 ≡ some b) × ((b ≡ true) ↔ Extends sample 1 3)
is_descendant_of-Extends_example =
    is_descendant_of-Extends sample 4 2 3 1 (omega arith) (omega arith)

implements_interface-Implements_example :
    (b : Bool) × (implements_interface 4 sample 5 3 ≡ some b) × ((b ≡ true) ↔ Implements sample 5 3)
implements_interface-Implements_example =
    implements_interface-Implements sample 4 2 5 3 (omega arith) (omega arith) (omega arith)

find_implementation-Serves_example :
    (Lists 6 (sample 2).iface_implementations
      → (impl : IfaceImplementation) × (find_implementation sample 6 2 ≡ some impl)
        × (impl.iface_class ≡ 6))
    × ((impl : IfaceImplementation)
        → find_implementation sample 6 2 ≡ some impl
        → Has impl (sample 2).iface_implementations × Serves sample 6 impl)
    × (find_implementation sample 6 2 ≡ none → NoneServes sample 6 (sample 2).iface_implementations)
find_implementation-Serves_example = find_implementation-Serves sample 6 2 (omega arith)

inherits : implements_interface 4 sample 5 3 ≡ some true
unfolding implements_interface declares
inherits = refl

falls_back : find_implementation sample 6 2 ≡ some (record { iface_class = 5; functions = 77 })
unfolding find_implementation exact_implementation variant_implementation
falls_back = refl

abbrev statics_of : ℕ → ClassStatic
statics_of n = record { static_properties_count = n; slot_base = 0 }
