-- ===== src/Mailbox/Queue.antt =====
-- The linked list of a mailbox is a queue.
use am_lang_core.Base.{
  ℕ, zero, suc, ◌<◌, ◌≡◌, ◌≢◌, refl, sym, not, List, [], ◌∷◌, ◌++◌, arith, All, length,
  if◌then◌else◌,
}
use am_lang_core.Mailbox.{
  Links, update, Mailbox, mailbox_create, mailbox_post, mailbox_pop_locked, mailbox_drain,
}

-- From `p` the links lead through the messages, in order, to the null pointer.
abbrev pub Chain : Links → ℕ → List ℕ → Type 0
Chain next p [] = p ≡ 0
Chain next p (m ∷ ms) = (p ≡ m) × (m ≢ 0) × Chain next (next m) ms

abbrev pub NotIn : ℕ → List ℕ → Type 0
NotIn m ms = All (λ k. k ≢ m) ms

abbrev pub Distinct : List ℕ → Type 0
Distinct [] = Unit {0}
Distinct (m ∷ ms) = NotIn m ms × Distinct ms

-- The last message, or the given pointer if there is none.
abbrev pub last_or : ℕ → List ℕ → ℕ
last_or p [] = p
last_or p (m ∷ ms) = last_or m ms

abbrev pub head_or : ℕ → List ℕ → ℕ
head_or p [] = p
head_or p (m ∷ ms) = m

abbrev pub tail : List ℕ → List ℕ
tail [] = []
tail (m ∷ ms) = ms

-- The mailbox holds the queue: its list is the queue, its tail the newest message.
pub record Represents (next : Links) (mb : Mailbox) (queue : List ℕ) : Type 0 where
  pub chain : Chain next mb.head queue
  pub newest : mb.tail ≡ last_or 0 queue
  pub distinct : Distinct queue

-- A write to another message leaves the chain.
Chain-update :
    (next : Links) (a v p : ℕ) (ms : List ℕ)
    → NotIn a ms
    → Chain next p ms
    → Chain (update next a v) p ms
Chain-update next a v p [] out c = c
Chain-update next a v p (m ∷ ms) out c = ground (arith, Chain-update next a v (next m) ms)

last_or-ne : (a k : ℕ) (ms : List ℕ) → NotIn a (k ∷ ms) → last_or k ms ≢ a
last_or-ne a k [] out = out.0
last_or-ne a k (m ∷ ms) out = last_or-ne a m ms out.1

-- Linking a new message behind the last one.
Chain-snoc :
    (next : Links) (msg p m : ℕ) (ms : List ℕ)
    → Chain next p (m ∷ ms)
    → Distinct (m ∷ ms)
    → NotIn msg (m ∷ ms)
    → msg ≢ 0
    → Chain (update (update next msg 0) (last_or m ms) msg) p (m ∷ ms ++ msg ∷ [])
Chain-snoc next msg p m [] c d out ne = ground arith
Chain-snoc next msg p m (k ∷ ms) c d out ne =
    let e : update (update next msg 0) (last_or k ms) msg m ≡ next m =
      ground (arith, last_or-ne m k ms d.0) in
    (c.0, c.1, rw e (Chain-snoc next msg (next m) k ms c.2 d.1 out.1 ne))

Distinct-snoc : (ms : List ℕ) (msg : ℕ) → Distinct ms → NotIn msg ms → Distinct (ms ++ msg ∷ [])
Distinct-snoc [] msg d out = (tt, tt)
Distinct-snoc (m ∷ ms) msg d out =
    (NotIn-snoc m ms msg d.0 (λ e. out.0 (sym e)), Distinct-snoc ms msg d.1 out.1)
  where
    NotIn-snoc : (m : ℕ) (ms : List ℕ) (msg : ℕ) → NotIn m ms → msg ≢ m → NotIn m (ms ++ msg ∷ [])
    NotIn-snoc m [] msg out ne = (ne, tt)
    NotIn-snoc m (k ∷ ms) msg out ne = (out.0, NotIn-snoc m ms msg out.1 ne)

last_or-snoc : (p : ℕ) (ms : List ℕ) (msg : ℕ) → last_or p (ms ++ msg ∷ []) ≡ msg
last_or-snoc p [] msg = refl
last_or-snoc p (m ∷ ms) msg = last_or-snoc m ms msg

last_or-ne_zero : (next : Links) (p m : ℕ) (ms : List ℕ) → Chain next p (m ∷ ms) → last_or m ms ≢ 0
last_or-ne_zero next p m [] c = c.1
last_or-ne_zero next p m (k ∷ ms) c = last_or-ne_zero next (next m) k ms c.2

pub mailbox_create-Represents : (next : Links) → Represents next mailbox_create []
unfolding mailbox_create
mailbox_create-Represents next = record { chain = refl; newest = refl; distinct = tt }

-- Posting a message that is not in the queue: an open mailbox accepts it and then holds it behind
-- all others, and a closed one refuses it and keeps its queue.
pub mailbox_post-Represents :
    (next : Links) (mb : Mailbox) (queue : List ℕ) (msg : ℕ)
    → Represents next mb queue
    → msg ≢ 0
    → NotIn msg queue
    → ((mailbox_post next mb msg).accepted ≡ not mb.closed)
      × Represents
          (mailbox_post next mb msg).links
          (mailbox_post next mb msg).mailbox
          (if mb.closed then queue else queue ++ msg ∷ [])
      × ((mailbox_post next mb msg).mailbox.closed ≡ mb.closed)
unfolding mailbox_post
mailbox_post-Represents next mb [] msg r ne out = ground (arith, Chain-update next msg 0 mb.head [])
mailbox_post-Represents next mb (m ∷ ms) msg r ne out = ground (
  arith,
  Chain-update next msg 0 mb.head (m ∷ ms),
  last_or-ne_zero next mb.head m ms,
  Chain-snoc next msg mb.head m ms,
  Distinct-snoc (m ∷ ms) msg,
  last_or-snoc 0 (m ∷ ms) msg,
)

-- Taking from the queue: the oldest message comes out, unlinked, and the mailbox holds the rest; an
-- empty queue gives the null pointer.
pub mailbox_pop-Represents :
    (next : Links) (mb : Mailbox) (queue : List ℕ)
    → Represents next mb queue
    → ((mailbox_pop_locked next mb).message ≡ head_or 0 queue)
      × Represents
          (mailbox_pop_locked next mb).links
          (mailbox_pop_locked next mb).mailbox
          (tail queue)
      × ((mailbox_pop_locked next mb).mailbox.closed ≡ mb.closed)
unfolding mailbox_pop_locked
mailbox_pop-Represents next mb [] r = ground arith
mailbox_pop-Represents next mb (m ∷ []) r = ground arith
mailbox_pop-Represents next mb (m ∷ k ∷ ms) r =
    ground (arith, Chain-update next m 0 (next m) (k ∷ ms))

-- Discarding what is left: with more rounds than messages the loop takes every message, oldest
-- first, and leaves the mailbox empty and as open as it was.
pub mailbox_drain-Represents :
    (fuel : ℕ) (next : Links) (mb : Mailbox) (queue : List ℕ)
    → Represents next mb queue
    → length queue < fuel
    → ((mailbox_drain fuel next mb).0 ≡ queue)
      × Represents (mailbox_drain fuel next mb).1.links (mailbox_drain fuel next mb).1.mailbox []
      × ((mailbox_drain fuel next mb).1.mailbox.closed ≡ mb.closed)
unfolding mailbox_drain
mailbox_drain-Represents zero next mb queue r enough = absurd (omega arith)
mailbox_drain-Represents (suc fuel) next mb [] r enough =
    let popped = mailbox_pop-Represents next mb [] r in ground arith
mailbox_drain-Represents (suc fuel) next mb (m ∷ ms) r enough =
    let t = mailbox_pop_locked next mb in
    let popped = mailbox_pop-Represents next mb (m ∷ ms) r in
    let rest = mailbox_drain-Represents fuel t.links t.mailbox ms popped.1 (omega arith) in
    ground (arith, r.chain.1)
