-- ===== src/Mailbox/Tests.antt =====
-- Runs of the mailbox, and its theorems at concrete inputs.
use am_lang_core.Base.{
  ℕ, ◌≡◌, ◌↔◌, refl, sym, Bool, true, false, not, some, none, List, [], ◌∷◌, ◌++◌, arith,
  if◌then◌else◌,
}
use am_lang_core.Mailbox.{
  Links, update, Mailbox, mailbox_create, mailbox_post, Taken, mailbox_pop_locked, mailbox_take,
  mailbox_close, mailbox_wait, mailbox_drain,
}
use am_lang_core.Mailbox.Queue.{
  Represents, head_or, tail, mailbox_post-Represents, mailbox_pop-Represents,
  mailbox_drain-Represents,
}
use am_lang_core.Mailbox.System.{
  System, Step, posts, takes, sleeps, closes, start, step, fresh, IsFifo, Reach-IsFifo, Reach-wakes,
}

abbrev no_links : Links
no_links p = 0

-- Messages 7 and 9 in the queue.
abbrev two_links : Links
two_links = update no_links 7 9

abbrev two : Mailbox
two = record { head = 7; tail = 9; closed = false; waiting = false }

two-Represents : Represents two_links two (7 ∷ 9 ∷ [])
two-Represents = record { chain = omega arith; newest = refl; distinct = omega arith }

mailbox_post-Represents_example :
    ((mailbox_post two_links two 5).accepted ≡ not two.closed)
    × Represents
        (mailbox_post two_links two 5).links
        (mailbox_post two_links two 5).mailbox
        (if two.closed then 7 ∷ 9 ∷ [] else (7 ∷ 9 ∷ []) ++ 5 ∷ [])
    × ((mailbox_post two_links two 5).mailbox.closed ≡ two.closed)
mailbox_post-Represents_example =
    mailbox_post-Represents two_links two (7 ∷ 9 ∷ []) 5 two-Represents (omega arith) (omega arith)

mailbox_pop-Represents_example :
    ((mailbox_pop_locked two_links two).message ≡ head_or 0 (7 ∷ 9 ∷ []))
    × Represents
        (mailbox_pop_locked two_links two).links
        (mailbox_pop_locked two_links two).mailbox
        (tail (7 ∷ 9 ∷ []))
    × ((mailbox_pop_locked two_links two).mailbox.closed ≡ two.closed)
mailbox_pop-Represents_example = mailbox_pop-Represents two_links two (7 ∷ 9 ∷ []) two-Represents

mailbox_drain-Represents_example :
    ((mailbox_drain 3 two_links two).0 ≡ 7 ∷ 9 ∷ [])
    × Represents
        (mailbox_drain 3 two_links two).1.links
        (mailbox_drain 3 two_links two).1.mailbox
        []
    × ((mailbox_drain 3 two_links two).1.mailbox.closed ≡ two.closed)
mailbox_drain-Represents_example =
    mailbox_drain-Represents 3 two_links two (7 ∷ 9 ∷ []) two-Represents (omega arith)

-- Two posts, the close, a post that is refused, and a take.
abbrev posted_seven : System
posted_seven = record {
  links = update no_links 7 0;
  mailbox = record { head = 7; tail = 7; closed = false; waiting = false };
  accepted = 7 ∷ [];
  received = [];
}

post_seven : Step (fresh no_links) posted_seven
unfolding mailbox_post mailbox_create
post_seven = posts {s = fresh no_links} 7 (omega arith) (λ queue e. rw (sym e) tt)

abbrev shut_seven : System
shut_seven = record posted_seven { mailbox = mailbox_close posted_seven.mailbox }

abbrev emptied : System
emptied = record {
  links = update (update no_links 7 0) 7 0;
  mailbox = record { head = 0; tail = 0; closed = true; waiting = false };
  accepted = 7 ∷ [];
  received = 7 ∷ [];
}

take_seven : Step shut_seven emptied
unfolding mailbox_take mailbox_pop_locked mailbox_close
take_seven =
    takes true
      (record {
        message = 7;
        links = update (update no_links 7 0) 7 0;
        mailbox = record { head = 0; tail = 0; closed = true; waiting = false };
      })
      refl refl

Reach-IsFifo_example : (queue : List ℕ) × IsFifo emptied queue
Reach-IsFifo_example = Reach-IsFifo no_links (step (step (step start post_seven) closes) take_seven)

-- The owner sleeps first, and the post wakes it.
abbrev asleep : System
asleep = record (fresh no_links) { mailbox = mailbox_wait mailbox_create }

go_to_sleep : Step (fresh no_links) asleep
unfolding mailbox_take mailbox_create
go_to_sleep = sleeps true refl

post_to_sleeper : Step asleep posted_seven
unfolding mailbox_post mailbox_create mailbox_wait
post_to_sleeper = posts {s = asleep} 7 (omega arith) (λ queue e. rw (sym e) tt)

Reach-wakes_example :
    (queue : List ℕ) × IsFifo posted_seven queue
    × (posted_seven.mailbox.waiting ≡ true → (queue ≡ []) × (posted_seven.mailbox.closed ≡ false))
    × ((wait : Bool)
        → ((mailbox_take posted_seven.links posted_seven.mailbox wait ≡ none)
            ↔ ((wait ≡ true) × (queue ≡ []) × (posted_seven.mailbox.closed ≡ false)))
          × ((taken : Taken)
              → mailbox_take posted_seven.links posted_seven.mailbox wait ≡ some taken
              → taken.message ≡ head_or 0 queue))
Reach-wakes_example = Reach-wakes no_links (step (step start go_to_sleep) post_to_sleeper)
