-- ===== src/Counting/Frame.antt =====
-- What giving up a holder leaves alone, and how often it frees.
use am_lang_core.Base.{
  ℕ, ◌+◌, ◌%◌, ◌^◌, ◌<◌, ◌≡◌, ◌≢◌, refl, ◌∙◌, Bool, true, false, List, [], arith, length,
  if◌then◌else◌, Bool-cases, inl, inr,
}
use am_lang_core.Counting.Fields.{put}
use am_lang_core.Counting.Chain.{has}
use am_lang_core.Counting.Ledger.{count, living}
use am_lang_core.Counting.Sound.{gone, plus, IsSound}
use am_lang_core.Counting.{Shape, Holder, by_property, by_reference, Memory}

abbrev pub bit : Bool → ℕ
bit b = if b then 1 else 0

-- From one memory to a later one: what was gone stays gone and, but for the object `x`, as it was;
-- what goes in between holds nothing and is
-- freed exactly once; what is not gone later is as it was.
pub record Frame (objects : List ℕ) (x : ℕ) (m m' : Memory) (w s w' s' : ℕ → List ℕ) : Type 0 where
  pub stays : (q : ℕ) → gone m q ≡ true → gone m' q ≡ true
  pub kept :
      (q : ℕ)
      → has q objects ≡ true
      → gone m q ≡ true
      → q ≢ x
      → (w' q ≡ w q)
        × (s' q ≡ s q)
        × (m'.properties q ≡ m.properties q)
        × (m'.elements q ≡ m.elements q)
  pub spared :
      (q : ℕ)
      → has q objects ≡ true
      → gone m' q ≡ false
      → (w' q ≡ w q)
        × (s' q ≡ s q)
        × (m'.properties q ≡ m.properties q)
        × (m'.elements q ≡ m.elements q)
  pub emptied :
      (q : ℕ)
      → has q objects ≡ true
      → gone m q ≡ false
      → gone m' q ≡ true
      → (w' q ≡ []) × (s' q ≡ [])
  pub once : (q : ℕ) → count q m'.freed + bit (gone m q) ≡ count q m.freed + bit (gone m' q)
  pub allocated :
      (m'.allocation_count + length m'.freed) % 2 ^ 32
      ≡ (m.allocation_count + length m.freed) % 2 ^ 32

-- Sound counts after an operation, with what it left alone.
pub record Outcome (shape : ℕ → Shape) (objects : List ℕ) (busy x : ℕ) (m : Memory)
    (w s : ℕ → List ℕ) (r o : ℕ → ℕ) (m' : Memory) : Type 0 where
  pub wraps : ℕ → List ℕ
  pub slots : ℕ → List ℕ
  pub list : List ℕ
  pub sound : IsSound shape objects busy m' wraps slots r o list
  pub frame : Frame objects x m m' w s wraps slots

-- A function that gives up a holder of an object, on any heap where fewer than `k` objects are left.
pub record GoodDecrease (shape : ℕ → Shape) (objects : List ℕ) (busy k : ℕ)
    (decrease : Holder → ℕ → Memory → Memory) : Type 0 where
  pub null : (holder : Holder) (m : Memory) → decrease holder 0 m ≡ m
  pub property :
      (p : ℕ) (m : Memory) (w s : ℕ → List ℕ) (r o : ℕ → ℕ) (list : List ℕ)
      → IsSound shape objects busy m w s r (plus o p) list
      → has p objects ≡ true
      → living (gone m) objects < k
      → (has busy objects ≡ true → 0 < r busy)
      → Outcome shape objects busy 0 m w s r o (decrease by_property p m)
  pub reference :
      (p : ℕ) (m : Memory) (w s : ℕ → List ℕ) (r o : ℕ → ℕ) (list : List ℕ)
      → IsSound shape objects busy m w s (plus r p) o list
      → has p objects ≡ true
      → living (gone m) objects < k
      → (has busy objects ≡ true → 0 < r busy)
      → Outcome shape objects busy 0 m w s r o (decrease by_reference p m)

before_gone : (b c : Bool) → (b ≡ true → c ≡ true) → c ≡ false → b ≡ false
before_gone false c stays e = refl
before_gone true c stays e = cc (stays refl)

module _ (objects : List ℕ) (x : ℕ) where
  pub Frame-refl : (m : Memory) (w s : ℕ → List ℕ) → Frame objects x m m w s w s
  Frame-refl m w s = record {
    stays = λ q d. d;
    kept = λ q h d ne. (refl, refl, refl, refl);
    spared = λ q h d. (refl, refl, refl, refl);
    emptied = λ q h a b. cc;
    once = λ q. refl;
    allocated = refl;
  }

  pub Frame-trans :
      (m m' m'' : Memory) (w s w' s' w'' s'' : ℕ → List ℕ)
      → gone m x ≡ true
      → Frame objects x m m' w s w' s'
      → Frame objects x m' m'' w' s' w'' s''
      → Frame objects x m m'' w s w'' s''
  Frame-trans m m' m'' w s w' s' w'' s'' dead f g = record {
    stays = λ q d. g.stays q (f.stays q d);
    kept = λ q h d ne.
        let a = f.kept q h d ne in
        let b = g.kept q h (f.stays q d) ne in (b.0 ∙ a.0, b.1 ∙ a.1, b.2 ∙ a.2, b.3 ∙ a.3);
    spared = λ q h d.
        let a = f.spared q h (before_gone (gone m' q) (gone m'' q) (g.stays q) d) in
        let b = g.spared q h d in (b.0 ∙ a.0, b.1 ∙ a.1, b.2 ∙ a.2, b.3 ∙ a.3);
    emptied = λ q h a b. elim (Bool-cases (gone m' q)) [
      | inl e ↦
          let between = f.emptied q h a e in
          let ne : q ≢ x = λ same. ground arith in
          let after = g.kept q h e ne in (after.0 ∙ between.0, after.1 ∙ between.1)
      | inr e ↦ g.emptied q h e b
    ];
    once = λ q. omega (arith, f.once q, g.once q);
    allocated = g.allocated ∙ f.allocated;
  }

  -- A frame that spares every object spares all but one, whatever that one held.
  pub Frame-put :
      (m m' : Memory) (w s w' s' : ℕ → List ℕ) (ws ss : List ℕ)
      → has 0 objects ≡ false
      → gone m x ≡ true
      → Frame objects 0 m m' (put w x ws) (put s x ss) w' s'
      → Frame objects x m m' w s w' s'
  Frame-put m m' w s w' s' ws ss no_null dead f = record {
    stays = f.stays;
    kept = λ q h d ne. ground (arith, f.kept q h d);
    spared = λ q h d. ground (arith, f.stays x, f.spared q h d);
    emptied = f.emptied;
    once = f.once;
    allocated = f.allocated;
  }

-- Two operations one after the other.
pub Frame-then :
    (objects : List ℕ) (m m' m'' : Memory) (w s w' s' w'' s'' : ℕ → List ℕ)
    → has 0 objects ≡ false
    → Frame objects 0 m m' w s w' s'
    → Frame objects 0 m' m'' w' s' w'' s''
    → Frame objects 0 m m'' w s w'' s''
Frame-then objects m m' m'' w s w' s' w'' s'' no_null f g = record {
  stays = λ q d. g.stays q (f.stays q d);
  kept = λ q h d ne.
      let a = f.kept q h d ne in
      let b = g.kept q h (f.stays q d) ne in (b.0 ∙ a.0, b.1 ∙ a.1, b.2 ∙ a.2, b.3 ∙ a.3);
  spared = λ q h d.
      let a = f.spared q h (before_gone (gone m' q) (gone m'' q) (g.stays q) d) in
      let b = g.spared q h d in (b.0 ∙ a.0, b.1 ∙ a.1, b.2 ∙ a.2, b.3 ∙ a.3);
  emptied = λ q h a b. elim (Bool-cases (gone m' q)) [
    | inl e ↦
        let between = f.emptied q h a e in
        let after = g.kept q h e (λ z. ground arith) in (after.0 ∙ between.0, after.1 ∙ between.1)
    | inr e ↦ g.emptied q h e b
  ];
  once = λ q. omega (arith, f.once q, g.once q);
  allocated = g.allocated ∙ f.allocated;
}
