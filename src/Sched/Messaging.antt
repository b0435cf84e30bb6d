-- ===== src/Sched/Messaging.antt =====
-- src/sched/messaging.c: a ring of messages per node.
pub mod Delivery
use libnumakit.Prelude.{
  ℕ, ◌+◌, zero, suc, Bool, true, false, ◌||◌, Option, none, some, List, [], ◌∷◌, ltb, leb, ◌==◌,
  get_elem?, set, if◌then◌else◌,
}
use libnumakit.Structs.Ring
use libnumakit.Structs.Ring.{Ring}
use libnumakit.Sched.Context.{Context, Mailbox}

-- The results 0, -1 and -2 of `nkit_send`.
pub data Sent : Type 0 where
  sent invalid_node congested : Sent

-- The ring of a node: `none` where `mailboxes[node]->ring` is not there to be read.
unfoldable pub ring_of : Context → ℕ → Option (Mailbox × Ring)
ring_of c node = elim (get_elem? c.mailboxes node) [
  | none ↦ none
  | some none ↦ none
  | some (some box) ↦ elim box.ring [ none ↦ none | some r ↦ some (box, r) ]
]

pub put_ring : Context → ℕ → Mailbox → Ring → Context
put_ring c node box r = record c {
  mailboxes = set c.mailboxes node (some (record box { ring = some r }));
}

-- A node below 0 is `none`. The whole is `none` where the code reads a mailbox that is not there, or
-- where the rounds of the push run out.
unfoldable pub send : List Bool → Context → Option ℕ → ℕ → Option (Sent × Context)
unfolding ring_of
send rounds c none data_ptr = some (invalid_node, c)
send rounds c (some node) data_ptr =
    if leb c.num_nodes node then some (invalid_node, c) else elim (ring_of c node) [
      | none ↦ none
      | some (box, r) ↦ elim (Ring.push rounds r data_ptr) [
        | none ↦ none
        | some (true, r') ↦ some (sent, put_ring c node box r')
        | some (false, r') ↦ some (congested, put_ring c node box r')
      ]
    ]

-- The loop of `nkit_process_local`: the messages that it hands to the handler, oldest first. The
-- handler is foreign code that leaves this ring alone; fuel bounds the turns.
pub drain : ℕ → List Bool → ℕ → ℕ → Ring → Option (List ℕ × Ring)
drain zero rounds limit processed r = none
drain (suc fuel) rounds limit processed r =
    if limit == 0 || ltb processed limit
    then elim (Ring.pop rounds r) [
      | none ↦ none
      | some (none, r') ↦ some ([], r')
      | some (some x, r') ↦ elim (drain fuel rounds limit (processed + 1) r') [
        | none ↦ none
        | some (xs, r'') ↦ some (x ∷ xs, r'')
      ]
    ]
    else some ([], r)

unfoldable pub process_local : ℕ → List Bool → Context → Option ℕ → ℕ → Option (List ℕ × Context)
unfolding ring_of
process_local fuel rounds c none limit = some ([], c)
process_local fuel rounds c (some node) limit =
    if leb c.num_nodes node then some ([], c) else elim (ring_of c node) [
      | none ↦ none
      | some (box, r) ↦ elim (drain fuel rounds limit 0 r) [
        | none ↦ none
        | some (xs, r') ↦ some (xs, put_ring c node box r')
      ]
    ]
