-- ===== src/Counting/Chain.antt =====
-- Doubly linked lists over the `next` and `prev` fields of objects, as `__increase_property_reference_count`
-- and `__decrease_property_reference_count` of src/native-c/libc keep them: what a push and an unlink do.
use am_lang_core.Base.{
  ℕ, ◌≡◌, ◌≢◌, refl, ◌∙◌, Bool, true, false, ◌||◌, ◌⊎◌, inl, inr, List, [], ◌∷◌, arith, ◌==◌,
  if◌then◌else◌, Bool-cases, ==_iff,
}
use am_lang_core.Counting.Fields.{put, put_if}
use am_lang_core.Counting.{Memory, unlink}

abbrev pub has : ℕ → List ℕ → Bool
has x [] = false
has x (y ∷ l) = (x == y) || has x l

abbrev pub Distinct : List ℕ → Type 0
Distinct [] = Unit {0}
Distinct (x ∷ l) = (has x l ≡ false) × Distinct l

abbrev pub erase : ℕ → List ℕ → List ℕ
erase x [] = []
erase x (y ∷ l) = if x == y then l else y ∷ erase x l

-- From `p` the `next` fields lead through the list to the null pointer, and the `prev` fields back to `b`.
abbrev pub IsChain : (next prev : ℕ → ℕ) → ℕ → ℕ → List ℕ → Type 0
IsChain next prev b p [] = p ≡ 0
IsChain next prev b p (x ∷ l) = (p ≡ x) × (x ≢ 0) × (prev x ≡ b) × IsChain next prev x (next x) l

pub has-erase :
    (y x : ℕ) (l : List ℕ) → Distinct l → has y (erase x l) ≡ (if y == x then false else has y l)
has-erase y x [] d = ground arith
has-erase y x (z ∷ l) d = ground (arith, has-erase y x l)

pub Distinct-erase : (x : ℕ) (l : List ℕ) → Distinct l → Distinct (erase x l)
Distinct-erase x [] d = tt
Distinct-erase x (z ∷ l) d = ground (arith, has-erase z x l, Distinct-erase x l)

module _ (next prev : ℕ → ℕ) where
  pub IsChain-frame :
      (next' prev' : ℕ → ℕ) (b p : ℕ) (l : List ℕ)
      → ((x : ℕ) → has x l ≡ true → (next' x ≡ next x) × (prev' x ≡ prev x))
      → IsChain next prev b p l
      → IsChain next' prev' b p l
  IsChain-frame next' prev' b p [] same c = c
  IsChain-frame next' prev' b p (x ∷ l) same c =
      let at = same x (ground arith) in
      let rest = IsChain-frame next' prev' x (next x) l (λ y h. same y (ground arith)) c.3 in
      (c.0, c.1, ground arith, rw at.0 rest)

  pub IsChain-zero : (b p : ℕ) (l : List ℕ) → IsChain next prev b p l → has 0 l ≡ false
  IsChain-zero b p [] c = refl
  IsChain-zero b p (x ∷ l) c = ground (arith, IsChain-zero x (next x) l)

  pub prev_in :
      (x b p y : ℕ) (l : List ℕ)
      → IsChain next prev b p (y ∷ l)
      → has x l ≡ true
      → has (prev x) (y ∷ l) ≡ true
  prev_in x b p y [] c h = cc
  prev_in x b p y (z ∷ l) c h = ground (arith, prev_in x y (next y) z l)

  pub next_in :
      (x b p : ℕ) (l : List ℕ)
      → IsChain next prev b p l
      → has x l ≡ true
      → (next x ≡ 0) ⊎ (has (next x) l ≡ true)
  next_in x b p [] c h = cc
  next_in x b p (y ∷ []) c h = ground arith
  next_in x b p (y ∷ z ∷ l) c h = ground (arith, next_in x y (next y) (z ∷ l))

  -- The list in front of which an object stands now, whatever its `prev` field was before.
  pub push_lem :
      (p first : ℕ) (l : List ℕ)
      → IsChain next prev 0 first l
      → Distinct l
      → has p l ≡ false
      → p ≢ 0
      → prev p ≡ 0
      → IsChain (put next p first) (put_if prev first p) 0 p (p ∷ l)
  push_lem p first [] c d out ne at = ground arith
  push_lem p first (x ∷ l) c d out ne at =
      let rest =
        IsChain-frame (put next p first) (put_if prev first p) x (next x) l (λ y h. ground arith)
          c.3 in
      let rest2 : IsChain (put next p first) (put_if prev first p) x (put next p first x) l =
        ground arith in
      (refl, ne, ground arith, (ground arith, c.1, ground arith, rest2))

  unlink_second :
      (b p y x : ℕ) (l : List ℕ)
      → IsChain next prev b p (y ∷ x ∷ l)
      → Distinct (y ∷ x ∷ l)
      → IsChain
          (put (put next (prev x) (next x)) x 0)
          (put (put_if prev (next x) (prev x)) x 0)
          b
          p
          (y ∷ l)
  unlink_second b p y x [] c d = ground arith
  unlink_second b p y x (z ∷ l) c d =
      let rest =
        IsChain-frame (put (put next (prev x) (next x)) x 0)
          (put (put_if prev (next x) (prev x)) x 0) z (next z) l (λ w h. ground arith) c.3.3.3 in
      ground arith

  -- Taking out a member behind the head: its neighbours point to one another, and its own fields
  -- are cleared.
  pub unlink_behind :
      (x b p y : ℕ) (l : List ℕ)
      → IsChain next prev b p (y ∷ l)
      → Distinct (y ∷ l)
      → has x l ≡ true
      → IsChain
          (put (put next (prev x) (next x)) x 0)
          (put (put_if prev (next x) (prev x)) x 0)
          b
          p
          (y ∷ erase x l)
  unlink_behind x b p y [] c d h = cc
  unlink_behind x b p y (z ∷ l) c d h = elim (Bool-cases (x == z)) [
    | inl e ↦
        let same = (==_iff x z).0 e in
        let c' : IsChain next prev b p (y ∷ x ∷ l) = rw same c in
        let d' : Distinct (y ∷ x ∷ l) = rw same d in rw e (unlink_second b p y x l c' d')
    | inr e ↦
        let rest = unlink_behind x y (next y) z l c.3 d.1 (ground arith) in
        let before = prev_in x y (next y) z l c.3 (ground arith) in
        let behind = next_in x y (next y) (z ∷ l) c.3 h in rw e (ground arith)
  ]

pub head_in :
    (next prev : ℕ → ℕ) (b p : ℕ) (l : List ℕ)
    → IsChain next prev b p l
    → (p ≡ 0) ⊎ (has p l ≡ true)
head_in next prev b p [] c = inl c
head_in next prev b p (x ∷ l) c = inr (ground arith)

unlink_head :
    (next prev : ℕ → ℕ) (p : ℕ) (l : List ℕ)
    → IsChain next prev 0 p (p ∷ l)
    → Distinct (p ∷ l)
    → IsChain (put next p 0) (put_if prev (next p) 0) 0 (next p) l
unlink_head next prev p [] c d = c.3
unlink_head next prev p (z ∷ l) c d =
    let rest =
      IsChain-frame next prev (put next p 0) (put_if prev (next p) 0) z (next z) l
        (λ w h. ground arith) c.3.3 in
    ground arith

abbrev pub relinked : Memory → ℕ → (ℕ → ℕ) → (ℕ → ℕ) → Memory
relinked m first next prev = record m { first_object = first; next = next; prev = prev }

-- Out of the list: the chain is what it was without the object, the `prev` field of the object is
-- cleared, and those of objects outside the list stay.
pub unlink_lem :
    (p : ℕ) (m : Memory) (l : List ℕ)
    → IsChain m.next m.prev 0 m.first_object l
    → Distinct l
    → has p l ≡ true
    → (first : ℕ) × (next prev : ℕ → ℕ) × (unlink p m ≡ relinked m first next prev)
      × IsChain next prev 0 first (erase p l)
      × (prev p ≡ 0)
      × ((q : ℕ) → has q l ≡ false → q ≢ 0 → prev q ≡ m.prev q)
unfolding unlink
unlink_lem p m [] c d h = cc
unlink_lem p m (y ∷ l) c d h = elim (Bool-cases (p == m.first_object)) [
  | inl e ↦
      let first = (==_iff p m.first_object).0 e in
      let is_head : p ≡ y = first ∙ c.0 in
      let c' : IsChain m.next m.prev 0 p (p ∷ l) = rw is_head (refl, c.1, c.2, c.3) in
      let d' : Distinct (p ∷ l) = rw is_head d in
      (
        m.next p,
        put m.next p 0,
        put_if m.prev (m.next p) 0,
        rw e refl,
        rw ((==_iff p y).1 is_head) (unlink_head m.next m.prev p l c' d'),
        ground arith,
        λ q out ne. ground (arith, next_in m.next m.prev p 0 p (p ∷ l) c' (ground arith)),
      )
  | inr e ↦
      let behind : has p l ≡ true = ground arith in
      let next_is = next_in m.next m.prev p 0 m.first_object (y ∷ l) c h in
      (
        m.first_object,
        put (put m.next (m.prev p) (m.next p)) p 0,
        put (put_if m.prev (m.next p) (m.prev p)) p 0,
        rw e refl,
        ground (arith, unlink_behind m.next m.prev p 0 m.first_object y l c d behind),
        ground arith,
        λ q out ne. ground arith,
      )
]
