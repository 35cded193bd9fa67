-- ===== src/Counting/Fields.antt =====
-- A field of every object, as a function of the object's address, and a write to it.
use mathlib.Core.Path.{fun_ext}
use am_lang_core.Base.{ℕ, ◌≡◌, refl, arith, ◌==◌, if◌then◌else◌, ==_iff}

-- `p->field = v`
abbrev pub put {ℓ} : {A : Type ℓ} → (ℕ → A) → ℕ → A → ℕ → A
put f p v q = if q == p then v else f q

-- `if (p != NULL) p->field = v`
abbrev pub put_if {ℓ} : {A : Type ℓ} → (ℕ → A) → ℕ → A → ℕ → A
put_if f p v q = if p == 0 then f q else put f p v q

pub put_at {ℓ} : {A : Type ℓ} (f : ℕ → A) (p : ℕ) (v : A) → put f p v p ≡ v
put_at f p v = rw ((==_iff p p).1 refl)

pub put_self {ℓ} : {A : Type ℓ} (f : ℕ → A) (p : ℕ) → put f p (f p) ≡ f
put_self f p = fun_ext λ q. ground arith
