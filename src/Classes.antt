-- ===== src/Classes.antt =====
-- Classes at run time: `struct _aclass` and `struct _class_static` of src/native-c/libc/core.h, and
-- the class functions of src/native-c/libc/core.c: `is_descendant_of`, `implements_interface`, the search of
-- `__allocate_iface_object`, `__register_class`, and the registry of reflected classes.
-- A class is a pointer, the null pointer is 0, and `ClassStore` is what the pointers point to.
pub mod Hierarchy
pub mod Interfaces
pub mod Slots
mod Tests
use am_lang_core.Base.{
  ℕ, zero, suc, ◌+◌, ◌%◌, ◌^◌, Bool, true, false, not, ◌&&◌, Option, none, some, List, [], ◌∷◌,
  ◌==◌, if◌then◌else◌,
}
use am_lang_core.Text.Methods.{bytes_equal}

pub record IfaceImplementation : Type 0 where
  pub iface_class : ℕ
  pub functions : ℕ

-- The fields that the functions below read.
pub record AClass : Type 0 where
  pub name : List ℕ
  pub statics : ℕ
  pub base : ℕ
  pub iface_implementations : List IfaceImplementation

abbrev pub ClassStore : Type 0
ClassStore = ℕ → AClass

-- The recursion up the base classes. `none` means that the fuel ran out.
unfoldable pub is_descendant_of : ℕ → ClassStore → (cls base : ℕ) → Option Bool
is_descendant_of zero classes cls base = none
is_descendant_of (suc fuel) classes cls base =
    let parent = (classes cls).base in
    let above = is_descendant_of fuel classes parent base in
    if cls == base then some true else if parent == 0 then some false else above

-- The inner loop of `implements_interface`.
unfoldable pub declares : ℕ → List IfaceImplementation → Bool
declares iface [] = false
declares iface (impl ∷ impls) = if impl.iface_class == iface then true else declares iface impls

unfoldable pub implements_interface : ℕ → ClassStore → (iface cls : ℕ) → Option Bool
implements_interface zero classes iface cur = none
implements_interface (suc fuel) classes iface cur =
    let above = implements_interface fuel classes iface (classes cur).base in
    if cur == 0
    then some false
    else if declares iface (classes cur).iface_implementations
    then some true
    else above

-- The two searches of `__allocate_iface_object`: the exact class, then any class of the same
-- interface.
unfoldable pub exact_implementation : ℕ → List IfaceImplementation → Option IfaceImplementation
exact_implementation iface [] = none
exact_implementation iface (impl ∷ impls) =
    if impl.iface_class == iface then some impl else exact_implementation iface impls

unfoldable pub variant_implementation :
    ClassStore → ℕ → List IfaceImplementation → Option IfaceImplementation
variant_implementation classes iface [] = none
variant_implementation classes iface (impl ∷ impls) =
    if not (impl.iface_class == 0) && (classes impl.iface_class).statics == (classes iface).statics
    then some impl
    else variant_implementation classes iface impls

unfoldable pub find_implementation : ClassStore → (iface cls : ℕ) → Option IfaceImplementation
find_implementation classes iface cls =
    elim (exact_implementation iface (classes cls).iface_implementations) [
      | some impl ↦ some impl
      | none ↦ variant_implementation classes iface (classes cls).iface_implementations
    ]

pub record ClassStatic : Type 0 where
  pub static_properties_count : ℕ
  pub slot_base : ℕ

-- `__first_class_static`, newest first, and `__amlc_static_slot_count`, an unsigned int.
pub record Registry : Type 0 where
  pub registered : List ClassStatic
  pub static_slot_count : ℕ

unfoldable pub register_class : Registry → ClassStatic → Registry
register_class r cls = record {
  registered = record cls { slot_base = r.static_slot_count } ∷ r.registered;
  static_slot_count = (r.static_slot_count + cls.static_properties_count) % 2 ^ 32;
}

-- `&iso->statics[cs->slot_base + i]`, by its index.
unfoldable pub static_slot : ClassStatic → ℕ → ℕ
static_slot cls i = (cls.slot_base + i) % 2 ^ 32

-- `__amlc_reflected_first` and what follows it by `reflected_next`.
unfoldable pub register_reflected : List AClass → AClass → List AClass
register_reflected reflected cls = cls ∷ reflected

unfoldable pub find_reflected_class : List AClass → List ℕ → Option AClass
find_reflected_class [] name = none
find_reflected_class (cls ∷ reflected) name =
    if bytes_equal cls.name name then some cls else find_reflected_class reflected name
