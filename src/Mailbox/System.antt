-- ===== src/Mailbox/System.antt =====
-- Any number of isolates that post to one mailbox, its owner that takes, and the owner's teardown that
-- closes it: every operation holds the lock, so a run is a sequence of whole operations in any order.
use am_lang_core.Base.{
  ℕ, ◌≡◌, ◌≢◌, ◌↔◌, refl, sym, ◌∙◌, Bool, true, false, some, none, List, [], ◌∷◌, ◌++◌, arith, ◌==◌,
  if◌then◌else◌,
}
use mathlib.Core.List.{append_assoc}
use am_lang_core.Mailbox.{
  Links, Mailbox, mailbox_create, mailbox_post, Taken, mailbox_pop_locked, mailbox_take,
  mailbox_close, mailbox_wait,
}
use am_lang_core.Mailbox.Queue.{
  Represents, NotIn, head_or, tail, mailbox_create-Represents, mailbox_post-Represents,
  mailbox_pop-Represents,
}

-- The memory and the mailbox, with the messages that were accepted and those that the owner took.
pub record System : Type 0 where
  pub links : Links
  pub mailbox : Mailbox
  pub accepted : List ℕ
  pub received : List ℕ

-- What the owner has received after a take.
abbrev pub receive : List ℕ → ℕ → List ℕ
receive received m = if m == 0 then received else received ++ m ∷ []

-- A sender posts a message that no other sender has in the queue. The owner takes while it is awake, or goes
-- to sleep where `mailbox_take` says so, and may wake without a signal.
pub data Step : System → System → Type 0 where
  posts :
      {s : System} (msg : ℕ)
      → msg ≢ 0
      → ((queue : List ℕ) → s.accepted ≡ s.received ++ queue → NotIn msg queue)
      → Step s (record {
        links = (mailbox_post s.links s.mailbox msg).links;
        mailbox = (mailbox_post s.links s.mailbox msg).mailbox;
        accepted =
            if (mailbox_post s.links s.mailbox msg).accepted
            then s.accepted ++ msg ∷ []
            else s.accepted;
        received = s.received;
      })
  takes :
      {s : System} (wait : Bool) (t : Taken)
      → s.mailbox.waiting ≡ false
      → mailbox_take s.links s.mailbox wait ≡ some t
      → Step s (record {
        links = t.links;
        mailbox = t.mailbox;
        accepted = s.accepted;
        received = receive s.received t.message;
      })
  sleeps :
      {s : System} (wait : Bool)
      → mailbox_take s.links s.mailbox wait ≡ none
      → Step s (record s { mailbox = mailbox_wait s.mailbox })
  wakes : {s : System} → Step s (record s { mailbox = record s.mailbox { waiting = false } })
  closes : {s : System} → Step s (record s { mailbox = mailbox_close s.mailbox })

pub data Reach (s : System) : System → Type 0 where
  start : Reach s s
  step : {t u : System} → Reach s t → Step t u → Reach s u

abbrev pub fresh : Links → System
fresh links = record { links = links; mailbox = mailbox_create; accepted = []; received = [] }

-- What was accepted is what was received and behind it what the mailbox holds.
pub record IsFifo (s : System) (queue : List ℕ) : Type 0 where
  pub held : Represents s.links s.mailbox queue
  pub order : s.accepted ≡ s.received ++ queue

module _ {s : System} {queue : List ℕ} (fifo : IsFifo s queue) where
  -- An open mailbox takes the message in.
  post-IsFifo :
      (msg : ℕ)
      → msg ≢ 0
      → NotIn msg queue
      → IsFifo
          (record {
            links = (mailbox_post s.links s.mailbox msg).links;
            mailbox = (mailbox_post s.links s.mailbox msg).mailbox;
            accepted =
                if (mailbox_post s.links s.mailbox msg).accepted
                then s.accepted ++ msg ∷ []
                else s.accepted;
            received = s.received;
          })
          (if s.mailbox.closed then queue else queue ++ msg ∷ [])
  post-IsFifo msg ne out =
      let posted = mailbox_post-Represents s.links s.mailbox queue msg fifo.held ne out in
      record { held = posted.1; order = ground (arith, append_assoc s.received queue (msg ∷ [])) }

  take_message :
      (wait : Bool) (t : Taken)
      → mailbox_take s.links s.mailbox wait ≡ some t
      → mailbox_pop_locked s.links s.mailbox ≡ t
  unfolding mailbox_take
  take_message wait t h = ground arith

take-IsFifo :
    {s : System} (queue : List ℕ) (t : Taken)
    → IsFifo s queue
    → mailbox_pop_locked s.links s.mailbox ≡ t
    → IsFifo
        (record {
          links = t.links;
          mailbox = t.mailbox;
          accepted = s.accepted;
          received = receive s.received t.message;
        })
        (tail queue)
take-IsFifo {s} [] t fifo e =
    let popped = mailbox_pop-Represents s.links s.mailbox [] fifo.held in
    rw (sym e) (record { held = popped.1; order = ground (arith, fifo.order) })
take-IsFifo {s} (m ∷ ms) t fifo e =
    let popped = mailbox_pop-Represents s.links s.mailbox (m ∷ ms) fifo.held in
    rw (sym e) (record {
      held = popped.1;
      order = ground (arith, fifo.order, fifo.held.chain.1, append_assoc s.received (m ∷ []) ms);
    })

-- A change of the other fields of the mailbox.
same-IsFifo :
    {s : System} {queue : List ℕ} {mb : Mailbox}
    → IsFifo s queue
    → (mb.head ≡ s.mailbox.head) × (mb.tail ≡ s.mailbox.tail)
    → IsFifo (record s { mailbox = mb }) queue
same-IsFifo fifo (head_same, tail_same) =
    let held = fifo.held in
    record {
      held = record {
        chain = rw head_same held.chain;
        newest = tail_same ∙ held.newest;
        distinct = held.distinct;
      };
      order = fifo.order;
    }

Step-IsFifo :
    {s t : System} (queue : List ℕ)
    → IsFifo s queue
    → Step s t
    → (next_queue : List ℕ) × IsFifo t next_queue
unfolding mailbox_close mailbox_wait
Step-IsFifo queue fifo (posts msg ne out) = (_, post-IsFifo fifo msg ne (out queue fifo.order))
Step-IsFifo queue fifo (takes wait t awake h) =
    (tail queue, take-IsFifo queue t fifo (take_message fifo wait t h))
Step-IsFifo queue fifo (sleeps wait h) = (queue, same-IsFifo fifo (refl, refl))
Step-IsFifo queue fifo wakes = (queue, same-IsFifo fifo (refl, refl))
Step-IsFifo queue fifo closes = (queue, same-IsFifo fifo (refl, refl))

-- Whatever order the posts, takes, sleeps, wakes and closes of a mailbox come in, it stays a queue: what
-- senders had accepted is, in their order, what the owner received and behind it what the mailbox still
-- holds.
pub Reach-IsFifo :
    (links : Links) {t : System} → Reach (fresh links) t → (queue : List ℕ) × IsFifo t queue
Reach-IsFifo links start = ([], record { held = mailbox_create-Represents links; order = refl })
Reach-IsFifo links (step r st) =
    let (queue, fifo) = Reach-IsFifo links r in Step-IsFifo queue fifo st

-- The owner goes to sleep exactly when it asked to wait and the mailbox is open and empty; otherwise it
-- comes back with the oldest message, or with the null pointer if there is none.
mailbox_take-head :
    (next : Links) (mb : Mailbox) (queue : List ℕ) (wait : Bool)
    → Represents next mb queue
    → ((mailbox_take next mb wait ≡ none) ↔ ((wait ≡ true) × (queue ≡ []) × (mb.closed ≡ false)))
      × ((t : Taken) → mailbox_take next mb wait ≡ some t → t.message ≡ head_or 0 queue)
unfolding mailbox_take
mailbox_take-head next mb [] true r =
    let popped = (mailbox_pop-Represents next mb [] r).0 in
    ((λ h. (refl, refl, ground arith), λ h. ground (arith, r.chain)), λ t h. ground arith)
mailbox_take-head next mb [] false r =
    let popped = (mailbox_pop-Represents next mb [] r).0 in
    ((λ h. cc, λ h. cc), λ t h. ground arith)
mailbox_take-head next mb (m ∷ ms) wait r =
    let popped = (mailbox_pop-Represents next mb (m ∷ ms) r).0 in
    ((λ h. ground (arith, r.chain), λ h. cc), λ t h. ground (arith, r.chain))

-- An owner that sleeps has an open mailbox without messages.
IsIdle : Mailbox → Type 0
IsIdle mb = mb.waiting ≡ true → (mb.head ≡ 0) × (mb.closed ≡ false)

Step-IsIdle : {s t : System} → Step s t → IsIdle s.mailbox → IsIdle t.mailbox
unfolding IsIdle mailbox_post mailbox_take mailbox_pop_locked mailbox_close mailbox_wait
Step-IsIdle (posts msg ne out) idle = λ w. ground arith
Step-IsIdle (takes wait t awake h) idle = λ w. absurd (ground arith)
Step-IsIdle (sleeps wait h) idle = λ w. ground arith
Step-IsIdle wakes idle = λ w. cc
Step-IsIdle closes idle = λ w. cc

Reach-IsIdle : (links : Links) {t : System} → Reach (fresh links) t → IsIdle t.mailbox
unfolding IsIdle mailbox_create
Reach-IsIdle links start = λ w. cc
Reach-IsIdle links (step r st) = Step-IsIdle st (Reach-IsIdle links r)

empty_queue :
    (queue : List ℕ) (next : Links) (mb : Mailbox)
    → Represents next mb queue
    → mb.head ≡ 0
    → queue ≡ []
empty_queue [] next mb held z = refl
empty_queue (m ∷ ms) next mb held z = absurd (ground (arith, held.chain))

-- No wake-up is lost: after any run of a new mailbox, what it holds being a queue, the owner sleeps on the
-- condition variable only while the queue is empty and the mailbox open, so that no message and no close
-- leaves it asleep. When it is awake it goes to sleep again exactly if it asked to wait and that is so;
-- otherwise it comes back with the oldest message, or with the null pointer if there is none.
pub Reach-wakes :
    (links : Links) {t : System}
    → Reach (fresh links) t
    → (queue : List ℕ) × IsFifo t queue
      × (t.mailbox.waiting ≡ true → (queue ≡ []) × (t.mailbox.closed ≡ false))
      × ((wait : Bool)
          → ((mailbox_take t.links t.mailbox wait ≡ none)
              ↔ ((wait ≡ true) × (queue ≡ []) × (t.mailbox.closed ≡ false)))
            × ((taken : Taken)
                → mailbox_take t.links t.mailbox wait ≡ some taken
                → taken.message ≡ head_or 0 queue))
unfolding IsIdle
Reach-wakes links {t} r =
    let (queue, fifo) = Reach-IsFifo links r in
    let idle = Reach-IsIdle links r in
    (
      queue,
      fifo,
      λ w. (empty_queue queue t.links t.mailbox fifo.held (idle w).0, (idle w).1),
      λ wait. mailbox_take-head t.links t.mailbox queue wait fifo.held,
    )
