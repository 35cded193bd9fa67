-- ===== src/Counting/Ledger.antt =====
-- Counting the holders of an object over a list of objects.
use am_lang_core.Base.{
  ℕ, ◌+◌, ◌<◌, ◌≤◌, ◌≡◌, refl, Bool, true, false, List, [], ◌∷◌, arith, All, ◌==◌, inl, inr,
  Bool-cases, ==_iff, if◌then◌else◌,
}
use am_lang_core.Counting.Fields.{put}
use am_lang_core.Counting.Chain.{has, Distinct}

abbrev pub count : ℕ → List ℕ → ℕ
count p [] = 0
count p (x ∷ l) = (if p == x then 1 else 0) + count p l

-- How often the listed objects hold `p`.
abbrev pub total : ℕ → (ℕ → List ℕ) → List ℕ → ℕ
total p held [] = 0
total p held (q ∷ qs) = count p (held q) + total p held qs

-- How many of the listed objects are not gone.
abbrev pub living : (ℕ → Bool) → List ℕ → ℕ
living gone [] = 0
living gone (q ∷ qs) = (if gone q then 0 else 1) + living gone qs

pub total_same :
    (p : ℕ) (f g : ℕ → List ℕ) (qs : List ℕ)
    → ((q : ℕ) → has q qs ≡ true → f q ≡ g q)
    → total p f qs ≡ total p g qs
total_same p f g [] same = refl
total_same p f g (q ∷ qs) same =
    let here = same q (ground arith) in
    let rest = total_same p f g qs (λ x h. same x (ground arith)) in rw here (omega (arith, rest))

-- Other holders in one object.
pub total-put :
    (p q : ℕ) (l : List ℕ) (f : ℕ → List ℕ) (qs : List ℕ)
    → Distinct qs
    → has q qs ≡ true
    → total p (put f q l) qs + count p (f q) ≡ total p f qs + count p l
total-put p q l f [] d h = cc
total-put p q l f (x ∷ qs) d h = elim (Bool-cases (q == x)) [
  | inl e ↦
      let same = (==_iff q x).0 e in
      let rest = total_same p (put f q l) f qs (λ y k. ground arith) in ground arith
  | inr e ↦ let rest = total-put p q l f qs d.1 (ground arith) in ground arith
]

pub living_le :
    (gone gone' : ℕ → Bool) (qs : List ℕ)
    → ((q : ℕ) → gone q ≡ true → gone' q ≡ true)
    → living gone' qs ≤ living gone qs
living_le gone gone' [] stays = omega arith
living_le gone gone' (q ∷ qs) stays = ground (arith, stays q, living_le gone gone' qs stays)

pub living_lt :
    (gone gone' : ℕ → Bool) (p : ℕ) (qs : List ℕ)
    → ((q : ℕ) → gone q ≡ true → gone' q ≡ true)
    → has p qs ≡ true
    → gone p ≡ false
    → gone' p ≡ true
    → living gone' qs < living gone qs
living_lt gone gone' p [] stays h a b = cc
living_lt gone gone' p (q ∷ qs) stays h a b =
    ground (arith, stays q, living_le gone gone' qs stays, living_lt gone gone' p qs stays)

pub count_of_has : (p : ℕ) (l : List ℕ) → has p l ≡ true → 0 < count p l
count_of_has p [] h = cc
count_of_has p (x ∷ l) h = ground (arith, count_of_has p l)

-- What a listed object holds is counted.
pub total_pos :
    (p q : ℕ) (f : ℕ → List ℕ) (qs : List ℕ)
    → has q qs ≡ true
    → has p (f q) ≡ true
    → 0 < total p f qs
total_pos p q f [] h k = cc
total_pos p q f (x ∷ qs) h k = ground (arith, total_pos p q f qs, count_of_has p (f q))

pub total_mono :
    (p : ℕ) (f g : ℕ → List ℕ) (qs : List ℕ)
    → ((q : ℕ) → has q qs ≡ true → count p (f q) ≤ count p (g q))
    → total p f qs ≤ total p g qs
total_mono p f g [] less = omega arith
total_mono p f g (q ∷ qs) less =
    let here = less q (ground arith) in
    let rest = total_mono p f g qs (λ x h. less x (ground arith)) in omega arith

-- What holds for the members of a list holds for those of one with no more of each.
pub All-has : (P : ℕ → Type 0) (l : List ℕ) → ((x : ℕ) → has x l ≡ true → P x) → All P l
All-has P [] all = tt
All-has P (y ∷ l) all = (all y (ground arith), All-has P l (λ x h. all x (ground arith)))

pub has_of_count : (x : ℕ) (l : List ℕ) → 0 < count x l → has x l ≡ true
has_of_count x [] h = absurd (omega arith)
has_of_count x (y ∷ l) h = ground (arith, has_of_count x l)

pub of_All : (P : ℕ → Type 0) (x : ℕ) (l : List ℕ) → All P l → has x l ≡ true → P x
of_All P x [] all h = cc
of_All P x (y ∷ l) all h = elim (Bool-cases (x == y)) [
  | inl e ↦ rw ((==_iff x y).0 e) all.0
  | inr e ↦ of_All P x l all.1 (ground arith)
]

pub count_zero : (p : ℕ) (l : List ℕ) → has p l ≡ false → count p l ≡ 0
count_zero p [] h = refl
count_zero p (x ∷ l) h = ground (arith, count_zero p l)

pub total_zero :
    (p : ℕ) (f : ℕ → List ℕ) (qs : List ℕ)
    → ((q : ℕ) → has q qs ≡ true → count p (f q) ≡ 0)
    → total p f qs ≡ 0
total_zero p f [] none = refl
total_zero p f (q ∷ qs) none =
    let here = none q (ground arith) in
    let rest = total_zero p f qs (λ x h. none x (ground arith)) in omega arith

-- Whoever is held has a holder.
pub total_holder :
    (p : ℕ) (f : ℕ → List ℕ) (qs : List ℕ)
    → 0 < total p f qs
    → (q : ℕ) × (has q qs ≡ true) × (has p (f q) ≡ true)
total_holder p f [] h = absurd (omega arith)
total_holder p f (q ∷ qs) h = elim (Bool-cases (has p (f q))) [
  | inl e ↦ (q, ground arith, e)
  | inr e ↦
      let (x, hx, hold) = total_holder p f qs (omega (arith, count_zero p (f q) e)) in
      (x, ground arith, hold)
]
