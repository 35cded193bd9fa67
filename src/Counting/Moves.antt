-- ===== src/Counting/Moves.antt =====
-- What the single writes of the reference counting code do to sound counts.
use am_lang_core.Base.{
  ℕ, suc, ◌+◌, ◌<◌, ◌≡◌, ◌≢◌, ap, Bool, true, false, ◌&&◌, ◌||◌, List, ◌∷◌, arith, All, ◌==◌,
}
use am_lang_core.Values.{NullableValue}
use am_lang_core.Counting.Fields.{put}
use am_lang_core.Counting.Chain.{has, Distinct, IsChain, erase, has-erase, Distinct-erase}
use am_lang_core.Counting.Ledger.{count, total-put}
use am_lang_core.Counting.Sound.{gone, plus, IsSound}
use am_lang_core.Counting.{Shape, Elements, Memory}

module _ (shape : ℕ → Shape) (objects : List ℕ) (apart : Distinct objects)
    (no_null : has 0 objects ≡ false) (busy : ℕ) (m : Memory) (w s : ℕ → List ℕ) (r o : ℕ → ℕ)
    (list : List ℕ) where
  -- A slot of an object that is given up turns into a holder from outside.
  pub take_slot :
      IsSound shape objects busy m w s r o list
      → (q p : ℕ) (rest : List ℕ) → has q objects ≡ true
      → gone m q ≡ true
      → s q ≡ p ∷ rest
      → IsSound shape objects busy m w (put s q rest) r (plus o p) list × (has p objects ≡ true)
  take_slot v q p rest hq dead e =
      let member : has p objects ≡ true = (rw e at ((v.closed q hq).1)).0 in
      let others : All (λ x. has x objects ≡ true) rest = (rw e at ((v.closed q hq).1)).1 in
      (
        record {
          chain = v.chain;
          distinct = v.distinct;
          listed = v.listed;
          unlinked = v.unlinked;
          references = v.references;
          properties = λ x h mortal. ground (
            arith,
            v.properties x h mortal,
            total-put x q rest s objects apart hq,
            ap (count x) e,
          );
          small = v.small;
          dead = v.dead;
          alive = v.alive;
          holds = λ x h there ne. ground (arith, v.holds x h there ne);
          closed = λ x h. ground (arith, v.closed x h);
        },
        member,
      )

  pub take_wrap :
      IsSound shape objects busy m w s r o list
      → (q p : ℕ) (rest : List ℕ) → has q objects ≡ true
      → gone m q ≡ true
      → w q ≡ p ∷ rest
      → IsSound shape objects busy m (put w q rest) s (plus r p) o list × (has p objects ≡ true)
  take_wrap v q p rest hq dead e =
      let member : has p objects ≡ true = (rw e at ((v.closed q hq).0)).0 in
      let others : All (λ x. has x objects ≡ true) rest = (rw e at ((v.closed q hq).0)).1 in
      (
        record {
          chain = v.chain;
          distinct = v.distinct;
          listed = v.listed;
          unlinked = v.unlinked;
          references = λ x h.
              ground
                (arith, v.references x h, total-put x q rest w objects apart hq, ap (count x) e);
          properties = v.properties;
          small = v.small;
          dead = v.dead;
          alive = v.alive;
          holds = λ x h there ne. ground (arith, v.holds x h there ne);
          closed = λ x h. ground (arith, v.closed x h);
        },
        member,
      )

  -- The slots of an object that is gone count no longer.
  pub clear_properties :
      IsSound shape objects busy m w s r o list
      → (q : ℕ) (vs : List NullableValue) → gone m q ≡ true
      → IsSound shape objects busy (record m { properties = put m.properties q vs }) w s r o list
  clear_properties v q vs dead = record {
    chain = v.chain;
    distinct = v.distinct;
    listed = v.listed;
    unlinked = v.unlinked;
    references = v.references;
    properties = v.properties;
    small = v.small;
    dead = v.dead;
    alive = v.alive;
    holds = λ x h there ne. ground (arith, v.holds x h there ne);
    closed = v.closed;
  }

  pub clear_elements :
      IsSound shape objects busy m w s r o list
      → (q : ℕ) (es : Elements) → gone m q ≡ true
      → IsSound shape objects busy (record m { elements = put m.elements q es }) w s r o list
  clear_elements v q es dead = record {
    chain = v.chain;
    distinct = v.distinct;
    listed = v.listed;
    unlinked = v.unlinked;
    references = v.references;
    properties = v.properties;
    small = v.small;
    dead = v.dead;
    alive = v.alive;
    holds = λ x h there ne. ground (arith, v.holds x h there ne);
    closed = v.closed;
  }

  -- Giving back an object that is gone.
  pub free_gone :
      IsSound shape objects busy m w s r o list
      → (p allocated : ℕ) → gone m p ≡ true
      → IsSound shape objects busy
          (record m { allocation_count = allocated; freed = p ∷ m.freed })
          w
          s
          r
          o
          list
  free_gone v p allocated there = record {
    chain = v.chain;
    distinct = v.distinct;
    listed = v.listed;
    unlinked = v.unlinked;
    references = v.references;
    properties = v.properties;
    small = v.small;
    dead = λ x h d. ground (arith, v.dead x h);
    alive = λ x h d. ground (arith, v.alive x h);
    holds = λ x h d ne. ground (arith, v.holds x h);
    closed = v.closed;
  }

  -- A property holder of an immortal object is not counted.
  pub immortal_property :
      (p : ℕ)
      → IsSound shape objects busy m w s r (plus o p) list
      → (shape p).immortal ≡ true
      → IsSound shape objects busy m w s r o list
  immortal_property p v immortal = record {
    chain = v.chain;
    distinct = v.distinct;
    listed = v.listed;
    unlinked = v.unlinked;
    references = v.references;
    properties = λ x h mortal. ground (arith, v.properties x h mortal);
    small = v.small;
    dead = v.dead;
    alive = v.alive;
    holds = v.holds;
    closed = v.closed;
  }

  module _ (p : ℕ) (hp : has p objects ≡ true) where
    -- One property holder less, of several.
    pub lower_property :
        IsSound shape objects busy m w s r (plus o p) list
        → (c : ℕ) → m.property_reference_count p ≡ suc c
        → 0 < c
        → IsSound shape objects busy
            (record m { property_reference_count = put m.property_reference_count p c })
            w
            s
            r
            o
            list
    lower_property v c is left = record {
      chain = v.chain;
      distinct = v.distinct;
      listed = λ x. ground (arith, v.listed x);
      unlinked = v.unlinked;
      references = v.references;
      properties = λ x h mortal. ground (arith, v.properties x h mortal);
      small = λ x h. ground (arith, v.small x h);
      dead = λ x h d. ground (arith, v.dead x h d);
      alive = λ x h d. ground (arith, v.alive x h d);
      holds = v.holds;
      closed = v.closed;
    }

    -- The last property holder: the object leaves the list, and is on its way out if there is no
    -- reference either.
    pub last_property :
        IsSound shape objects busy m w s r (plus o p) list
        → (first : ℕ) (next prev : ℕ → ℕ) (pending : ℕ → Bool) → m.property_reference_count p ≡ 1
        → IsChain next prev 0 first (erase p list)
        → prev p ≡ 0
        → ((q : ℕ) → has q list ≡ false → q ≢ 0 → prev q ≡ m.prev q)
        → ((q : ℕ)
            → gone (record m { pending_deallocation = pending }) q
              ≡ (gone m q || ((q == p) && (m.reference_count p == 0))))
        → IsSound shape objects busy
            (record m {
              property_reference_count = put m.property_reference_count p 0;
              first_object = first;
              next = next;
              prev = prev;
              pending_deallocation = pending;
            })
            w
            s
            r
            o
            (erase p list)
    last_property v first next prev pending is chain cleared kept now = record {
      chain = chain;
      distinct = Distinct-erase p list v.distinct;
      listed = λ x. ground (arith, v.listed x, has-erase x p list v.distinct);
      unlinked = λ x h out.
          ground (arith, v.listed x, v.unlinked x, kept x, has-erase x p list v.distinct);
      references = v.references;
      properties = λ x h mortal. ground (arith, v.properties x h mortal);
      small = λ x h. ground (arith, v.small x h);
      dead = λ x h d. ground (arith, v.dead x h, now x);
      alive = λ x h d. ground (arith, v.alive x h, now x);
      holds = λ x h d ne. ground (arith, v.holds x h, now x);
      closed = v.closed;
    }

    -- One reference less, of several holders.
    pub lower_reference :
        IsSound shape objects busy m w s (plus r p) o list
        → (c : ℕ) → m.reference_count p ≡ suc c
        → 0 < c + m.property_reference_count p
        → IsSound shape objects busy
            (record m { reference_count = put m.reference_count p c })
            w
            s
            r
            o
            list
    lower_reference v c is left = record {
      chain = v.chain;
      distinct = v.distinct;
      listed = v.listed;
      unlinked = v.unlinked;
      references = λ x h. ground (arith, v.references x h);
      properties = v.properties;
      small = λ x h. ground (arith, v.small x h);
      dead = λ x h d. ground (arith, v.dead x h d);
      alive = λ x h d. ground (arith, v.alive x h d);
      holds = v.holds;
      closed = v.closed;
    }

    -- The last holder: the object is gone.
    pub last_reference :
        IsSound shape objects busy m w s (plus r p) o list
        → (pending : ℕ → Bool) (freed : List ℕ) (allocated : ℕ) → m.reference_count p ≡ 1
        → m.property_reference_count p ≡ 0
        → ((q : ℕ)
            → gone (record m { pending_deallocation = pending; freed = freed }) q
              ≡ (gone m q || (q == p)))
        → IsSound shape objects busy
            (record m {
              reference_count = put m.reference_count p 0;
              pending_deallocation = pending;
              allocation_count = allocated;
              freed = freed;
            })
            w
            s
            r
            o
            list
    last_reference v pending freed allocated is none_left now = record {
      chain = v.chain;
      distinct = v.distinct;
      listed = v.listed;
      unlinked = v.unlinked;
      references = λ x h. ground (arith, v.references x h);
      properties = v.properties;
      small = λ x h. ground (arith, v.small x h);
      dead = λ x h d. ground (arith, v.dead x h, now x);
      alive = λ x h d. ground (arith, v.alive x h, now x);
      holds = λ x h d ne. ground (arith, v.holds x h, now x);
      closed = v.closed;
    }
