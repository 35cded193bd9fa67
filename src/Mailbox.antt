-- ===== src/Mailbox.antt =====
-- The mailbox of an isolate: `struct _amailbox` and `__amlc_mailbox_*` of src/native-c/libc/core.c, in the
-- variant with a mutex and a condition variable. A function that holds the lock is one step.
-- The owner is the only one that waits on the condition variable, and `waiting` says that it does: a
-- signal or a broadcast wakes it, and it then looks at the mailbox again.
-- A message is a pointer, the null pointer is 0, and `Links` is the `next` field of every message.
pub mod Queue
pub mod System
mod Tests
use am_lang_core.Base.{
  ℕ, zero, suc, Bool, true, false, not, ◌&&◌, Option, none, some, List, [], ◌∷◌, ◌==◌,
  if◌then◌else◌,
}

abbrev pub Links : Type 0
Links = ℕ → ℕ

-- `p->next = v`
abbrev pub update : Links → ℕ → ℕ → Links
update next p v q = if q == p then v else next q

pub record Mailbox : Type 0 where
  pub head : ℕ
  pub tail : ℕ
  pub closed : Bool
  pub waiting : Bool

-- `calloc`: all fields are zero.
unfoldable pub mailbox_create : Mailbox
mailbox_create = record { head = 0; tail = 0; closed = false; waiting = false }

pub record Posted : Type 0 where
  pub accepted : Bool
  pub links : Links
  pub mailbox : Mailbox

-- `msg->next = NULL` comes before the test on `closed`. A message that is taken in is signalled.
unfoldable pub mailbox_post : Links → Mailbox → ℕ → Posted
mailbox_post next mb msg =
    let cleared = update next msg 0 in
    if mb.closed
    then record { accepted = false; links = cleared; mailbox = mb }
    else if mb.tail == 0
    then record {
      accepted = true;
      links = cleared;
      mailbox = record mb { head = msg; tail = msg; waiting = false };
    }
    else record {
      accepted = true;
      links = update cleared mb.tail msg;
      mailbox = record mb { tail = msg; waiting = false };
    }

pub record Taken : Type 0 where
  pub message : ℕ
  pub links : Links
  pub mailbox : Mailbox

unfoldable pub mailbox_pop_locked : Links → Mailbox → Taken
mailbox_pop_locked next mb =
    let m = mb.head in
    if m == 0 then record { message = m; links = next; mailbox = mb } else record {
      message = m;
      links = update next m 0;
      mailbox = record mb { head = next m; tail = if next m == 0 then 0 else mb.tail };
    }

-- One pass of `while (wait && mb->head == NULL && !mb->closed)`: `none` is another wait on the
-- condition variable, with the lock given up.
unfoldable pub mailbox_take : Links → Mailbox → Bool → Option Taken
mailbox_take next mb wait =
    if wait && (mb.head == 0) && not mb.closed then none else some (mailbox_pop_locked next mb)

-- `pthread_cond_wait`: the lock is given up until a signal.
unfoldable pub mailbox_wait : Mailbox → Mailbox
mailbox_wait mb = record mb { waiting = true }

-- The flag, and the broadcast.
unfoldable pub mailbox_close : Mailbox → Mailbox
mailbox_close mb = record mb { closed = true; waiting = false }

-- The loop that discards what is left: `__amlc_isolate_teardown` and `__amlc_isolate_free`. The
-- list is what is discarded, oldest first; every round takes one message, and the rounds are fuel.
unfoldable pub mailbox_drain : ℕ → Links → Mailbox → List ℕ × Taken
mailbox_drain zero next mb = ([], record { message = 0; links = next; mailbox = mb })
mailbox_drain (suc fuel) next mb =
    let t = mailbox_pop_locked next mb in
    let rest = mailbox_drain fuel t.links t.mailbox in
    if t.message == 0 then ([], t) else (t.message ∷ rest.0, rest.1)
