-- ===== src/Counting/Edges.antt =====
-- Rewriting what one object holds, while its slots and the counts are out of step.
use am_lang_core.Base.{
  ℕ, zero, suc, ◌+◌, ◌<◌, ◌≡◌, refl, Bool, true, false, List, [], ◌∷◌, ◌++◌, arith, All, length,
  get_or, set, ◌==◌, if◌then◌else◌, Bool-cases, inl, inr, ==_iff,
}
use am_lang_core.Values.{NullableValue}
use am_lang_core.Counting.Fields.{put}
use am_lang_core.Counting.Chain.{has, Distinct}
use am_lang_core.Counting.Ledger.{count, total-put}
use am_lang_core.Counting.Sound.{IsSound, held_values, slots_of, wraps_of}
use am_lang_core.Counting.{Shape, Memory, owns, no_value}

pub count-append : (x : ℕ) (l l' : List ℕ) → count x (l ++ l') ≡ count x l + count x l'
count-append x [] l' = omega arith
count-append x (y ∷ l) l' = omega (arith, count-append x l l')

-- What a row of slots holds, before and after a write.
pub count-set :
    (x i : ℕ) (v : NullableValue) (vs : List NullableValue)
    → i < length vs
    → count x (held_values (set vs i v)) + count x (held_values (get_or vs i no_value ∷ []))
      ≡ count x (held_values vs) + count x (held_values (v ∷ []))
count-set x i v [] h = absurd (omega arith)
count-set x zero v (u ∷ vs) h = ground arith
count-set x (suc i) v (u ∷ vs) h = ground (arith, count-set x i v vs)

module _ (P : ℕ → Type 0) where
  All-tail : (b : Bool) (x : ℕ) (l : List ℕ) → All P (if b then x ∷ l else l) → All P l
  All-tail true x l all = all.1
  All-tail false x l all = all

  All-head : (b : Bool) (x : ℕ) (l : List ℕ) → All P (if b then x ∷ l else l) → b ≡ true → P x
  All-head true x l all e = all.0
  All-head false x l all e = cc

  All-cons_if :
      (b : Bool) (x : ℕ) (l : List ℕ) → (b ≡ true → P x) → All P l → All P (if b then x ∷ l else l)
  All-cons_if true x l one all = (one refl, all)
  All-cons_if false x l one all = all

  pub All-append : (l l' : List ℕ) → All P l → All P l' → All P (l ++ l')
  All-append [] l' all all' = all'
  All-append (x ∷ l) l' all all' = (all.0, All-append l l' all.1 all')

  pub All-append_inv : (l l' : List ℕ) → All P (l ++ l') → All P l × All P l'
  All-append_inv [] l' all = (tt, all)
  All-append_inv (x ∷ l) l' all = let rest = All-append_inv l l' all.1 in ((all.0, rest.0), rest.1)

pub All-get_or :
    (P : ℕ → Type 0) (i : ℕ) (vs : List NullableValue)
    → i < length vs
    → All P (held_values vs)
    → owns (get_or vs i no_value) ≡ true
    → P (get_or vs i no_value).value
All-get_or P i [] h all e = absurd (omega arith)
All-get_or P zero (u ∷ vs) h all e = All-head P (owns u) u.value (held_values vs) all e
All-get_or P (suc i) (u ∷ vs) h all e =
    All-get_or P i vs (omega arith) (All-tail P (owns u) u.value (held_values vs) all) e

pub All-set :
    (P : ℕ → Type 0) (i : ℕ) (v : NullableValue) (vs : List NullableValue)
    → (owns v ≡ true → P v.value)
    → All P (held_values vs)
    → All P (held_values (set vs i v))
All-set P i v [] new all = tt
All-set P zero v (u ∷ vs) new all =
    All-cons_if P (owns v) v.value (held_values vs) new
      (All-tail P (owns u) u.value (held_values vs) all)
All-set P (suc i) v (u ∷ vs) new all =
    All-cons_if P (owns u) u.value (held_values (set vs i v))
      (All-head P (owns u) u.value (held_values vs) all)
      (All-set P i v vs new (All-tail P (owns u) u.value (held_values vs) all))

module _ (shape : ℕ → Shape) (objects : List ℕ) (apart : Distinct objects)
    (no_null : has 0 objects ≡ false) (busy : ℕ) (m : Memory) (w s : ℕ → List ℕ) (r o : ℕ → ℕ)
    (list : List ℕ) where
  -- The busy object holds something else, and the holders outside make up for it.
  pub exchange :
      (l : List ℕ) (o' : ℕ → ℕ)
      → has busy objects ≡ true
      → All (λ p. has p objects ≡ true) l
      → ((x : ℕ) → count x l + o' x ≡ count x (s busy) + o x)
      → IsSound shape objects busy m w s r o list
      → IsSound shape objects busy m w (put s busy l) r o' list
  exchange l o' hb all same v = record {
    chain = v.chain;
    distinct = v.distinct;
    listed = v.listed;
    unlinked = v.unlinked;
    references = v.references;
    properties = λ x h mortal.
        omega (arith, v.properties x h mortal, total-put x busy l s objects apart hb, same x);
    small = v.small;
    dead = v.dead;
    alive = v.alive;
    holds = λ q h there ne. ground (arith, v.holds q h there ne);
    closed = λ x h. ground (arith, v.closed x h);
  }

  pub open_lem : IsSound shape objects 0 m w s r o list → IsSound shape objects busy m w s r o list
  open_lem v = record {
    chain = v.chain;
    distinct = v.distinct;
    listed = v.listed;
    unlinked = v.unlinked;
    references = v.references;
    properties = v.properties;
    small = v.small;
    dead = v.dead;
    alive = v.alive;
    holds = λ q h there ne. v.holds q h there (λ z. ground arith);
    closed = v.closed;
  }

  pub close_lem :
      w busy ≡ wraps_of shape busy
      → s busy ≡ slots_of shape m busy
      → IsSound shape objects busy m w s r o list
      → IsSound shape objects 0 m w s r o list
  close_lem wraps slots v = record {
    chain = v.chain;
    distinct = v.distinct;
    listed = v.listed;
    unlinked = v.unlinked;
    references = v.references;
    properties = v.properties;
    small = v.small;
    dead = v.dead;
    alive = v.alive;
    holds = λ q h there ne. elim (Bool-cases (q == busy)) [
      | inl e ↦ rw ((==_iff q busy).0 e) (wraps, slots)
      | inr e ↦ v.holds q h there (λ same. ground arith)
    ];
    closed = v.closed;
  }

  -- The slots of the busy object may be written.
  pub write_properties :
      (vs : List NullableValue)
      → IsSound shape objects busy m w s r o list
      → IsSound shape objects busy (record m { properties = put m.properties busy vs }) w s r o list
  write_properties vs v = record {
    chain = v.chain;
    distinct = v.distinct;
    listed = v.listed;
    unlinked = v.unlinked;
    references = v.references;
    properties = v.properties;
    small = v.small;
    dead = v.dead;
    alive = v.alive;
    holds = λ q h there ne. ground (arith, v.holds q h there ne);
    closed = v.closed;
  }
