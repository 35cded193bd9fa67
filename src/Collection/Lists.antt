-- ===== src/Collection/Lists.antt =====
-- Positions in a list without repeats, and sums over it.
use am_lang_core.Base.{
  ℕ, zero, suc, ◌+◌, ◌<◌, ◌≤◌, ◌≡◌, refl, sym, ap, ◌∙◌, true, false, List, [], ◌∷◌, ◌++◌, arith,
  ◌==◌, inl, inr, Bool, Bool-cases, ==_iff, if◌then◌else◌, length, get_or, ◌||◌,
}
use am_lang_core.Collector.Table.{position}
use am_lang_core.Collector.Collect.Build.{AreNew}
use am_lang_core.Counting.Fields.{put}
use am_lang_core.Counting.Chain.{has, Distinct}
use am_lang_core.Counting.Ledger.{count, total, total_same, total-put, living}
use am_lang_core.Counting.Edges.{count-append}

pub position_none : (os : List ℕ) (p : ℕ) → position os p ≡ 0 → has p os ≡ false
position_none [] p h = refl
position_none (o ∷ os) p h = ground (arith, position_none os p)

pub position_some : (os : List ℕ) (p : ℕ) → (position os p == 0) ≡ false → has p os ≡ true
position_some [] p h = cc
position_some (o ∷ os) p h = ground (arith, position_some os p)

pub position_missing : (os : List ℕ) (p : ℕ) → has p os ≡ false → position os p ≡ 0
position_missing [] p h = refl
position_missing (o ∷ os) p h = ground (arith, position_missing os p)

pub get_or-position : (os : List ℕ) (p j : ℕ) → position os p ≡ suc j → get_or os j 0 ≡ p
get_or-position [] p j h = absurd (omega arith)
get_or-position (o ∷ os) p zero h = ground arith
get_or-position (o ∷ os) p (suc j) h = ground (arith, get_or-position os p j)

pub has-get_or : (os : List ℕ) (j : ℕ) → j < length os → has (get_or os j 0) os ≡ true
has-get_or [] j h = absurd (omega arith)
has-get_or (o ∷ os) zero h = ground arith
has-get_or (o ∷ os) (suc j) h = ground (arith, has-get_or os j)

pub position_at :
    (os : List ℕ) (j : ℕ) → Distinct os → j < length os → position os (get_or os j 0) ≡ suc j
position_at [] j d h = absurd (omega arith)
position_at (o ∷ os) zero d h = ground arith
position_at (o ∷ os) (suc j) d h = ground (arith, position_at os j, has-get_or os j)

-- Where a member of the list stands.
pub place_of :
    (os : List ℕ) (p : ℕ) → has p os ≡ true → (j : ℕ) × (j < length os) × (get_or os j 0 ≡ p)
place_of [] p h = cc
place_of (o ∷ os) p h = elim (Bool-cases (p == o)) [
  | inl e ↦ (0, omega arith, sym ((==_iff p o).0 e))
  | inr e ↦ let (j, lt, at) = place_of os p (ground arith) in (suc j, omega arith, at)
]

pub has-append : (p : ℕ) (l l' : List ℕ) → has p (l ++ l') ≡ (has p l || has p l')
has-append p [] l' = refl
has-append p (x ∷ l) l' = ground (arith, has-append p l l')

pub Distinct-snoc : (l : List ℕ) (p : ℕ) → Distinct l → has p l ≡ false → Distinct (l ++ p ∷ [])
Distinct-snoc [] p d h = (refl, tt)
Distinct-snoc (x ∷ l) p d h =
    (ground (arith, has-append x l (p ∷ [])), Distinct-snoc l p d.1 (ground arith))

pub Distinct-AreNew :
    (os ps : List ℕ)
    → Distinct ps
    → has 0 ps ≡ false
    → ((p : ℕ) → has p ps ≡ true → has p os ≡ false)
    → AreNew os ps
Distinct-AreNew os [] d z free = tt
Distinct-AreNew os (p ∷ ps) d z free = (
  λ e. absurd (ground arith),
  position_missing os p (free p (ground arith)),
  Distinct-AreNew (os ++ p ∷ []) ps d.1 (ground arith)
      (λ q h. ground (arith, has-append q os (p ∷ []), free q)),
)

-- The listed objects that `f` is about, and the others.
pub total-append :
    (p : ℕ) (f g : ℕ → List ℕ) (qs : List ℕ)
    → total p (λ q. f q ++ g q) qs ≡ total p f qs + total p g qs
total-append p f g [] = refl
total-append p f g (q ∷ qs) = omega (arith, count-append p (f q) (g q), total-append p f g qs)

pub total_counts :
    (p : ℕ) (f g : ℕ → List ℕ) (qs : List ℕ)
    → ((q : ℕ) → has q qs ≡ true → count p (f q) ≡ count p (g q))
    → total p f qs ≡ total p g qs
total_counts p f g [] same = refl
total_counts p f g (q ∷ qs) same =
    let here = same q (ground arith) in
    let rest = total_counts p f g qs (λ x h. same x (ground arith)) in omega arith

abbrev inside : List ℕ → (ℕ → List ℕ) → ℕ → List ℕ
inside os f q = if has q os then f q else []

abbrev pub outside : List ℕ → (ℕ → List ℕ) → ℕ → List ℕ
outside os f q = if has q os then [] else f q

total_nothing : (p : ℕ) (qs : List ℕ) → total p (λ q. []) qs ≡ 0
total_nothing p [] = refl
total_nothing p (q ∷ qs) = omega (arith, total_nothing p qs)

-- The sum over some of the objects as one over all of them.
total-inside :
    (p : ℕ) (f : ℕ → List ℕ) (objects : List ℕ)
    → Distinct objects
    → (os : List ℕ) → Distinct os
    → ((q : ℕ) → has q os ≡ true → has q objects ≡ true)
    → total p f os ≡ total p (inside os f) objects
total-inside p f objects d [] d' sub = sym (total_nothing p objects)
total-inside p f objects d (x ∷ os) d' sub =
    let rest = total-inside p f objects d os d'.1 (λ q h. sub q (ground arith)) in
    let more = total-put p x (f x) (inside os f) objects d (sub x (ground arith)) in
    let same : total p (inside (x ∷ os) f) objects ≡ total p (put (inside os f) x (f x)) objects =
      total_same p (inside (x ∷ os) f) (put (inside os f) x (f x)) objects (λ q h.
        elim (Bool-cases (q == x)) [
          | inl e ↦ let e' = (==_iff q x).0 e in rw (e, e') refl
          | inr e ↦ rw e refl
        ]) in
    let new : count p (inside os f x) ≡ 0 = rw d'.0 refl in omega arith

pub total_split :
    (p : ℕ) (f : ℕ → List ℕ) (objects os : List ℕ)
    → Distinct objects
    → Distinct os
    → ((q : ℕ) → has q os ≡ true → has q objects ≡ true)
    → total p f objects ≡ total p f os + total p (outside os f) objects
total_split p f objects os d d' sub =
    let both : total p f objects ≡ total p (λ q. inside os f q ++ outside os f q) objects =
      total_counts p f (λ q. inside os f q ++ outside os f q) objects
        (λ q h. elim (Bool-cases (has q os)) [
          | inl e ↦ rw e (omega (arith, count-append p (f q) []))
          | inr e ↦ rw e refl
        ]) in
    both
    ∙ total-append p (inside os f) (outside os f) objects
    ∙ ap (λ n. n + total p (outside os f) objects) (sym (total-inside p f objects d os d' sub))

-- The number of objects that are left is a sum like that of the holders.
abbrev tally : (ℕ → Bool) → ℕ → List ℕ
tally gone q = if gone q then [] else 0 ∷ []

total-tally : (gone : ℕ → Bool) (qs : List ℕ) → total 0 (tally gone) qs ≡ living gone qs
total-tally gone [] = refl
total-tally gone (q ∷ qs) = ground (arith, total-tally gone qs)

tally_left :
    (gone : ℕ → Bool) (os : List ℕ)
    → ((q : ℕ) → has q os ≡ true → gone q ≡ false)
    → total 0 (tally gone) os ≡ length os
tally_left gone [] left = refl
tally_left gone (x ∷ os) left =
    let rest = tally_left gone os (λ q h. left q (ground arith)) in
    let here = left x (ground arith) in rw here (omega arith)

-- Objects that are not gone, each of them once, are at most as many as are left.
pub length-living :
    (gone : ℕ → Bool) (objects os : List ℕ)
    → Distinct objects
    → Distinct os
    → ((q : ℕ) → has q os ≡ true → has q objects ≡ true)
    → ((q : ℕ) → has q os ≡ true → gone q ≡ false)
    → length os ≤ living gone objects
length-living gone objects os d d' sub left = omega (
  arith,
  total_split 0 (tally gone) objects os d d' sub,
  total-tally gone objects,
  tally_left gone os left,
)
