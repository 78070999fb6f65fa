-- ===== src/Raft/Apply/Messages.antt =====
-- The list of the messages that the apply loop sends, from the log itself.
use consensus_lab.Base.{
  ℕ, zero, suc, ◌+◌, ◌-◌, ◌≤◌, min, ◌≡◌, refl, sym, ◌∙◌, some, List, [], ◌∷◌, length, take, drop,
  get_elem?, get_elem?-of_lt, get_elem?-take, get_elem?-drop, length-take, length-drop, list_ext,
  get_elem?-lt, arith,
}
use consensus_lab.Raft.Types.{ApplyMsg, command_msg, LogEntry}
use consensus_lab.Raft.Node.{Node, last_log_index, entry_at}
use consensus_lab.Raft.Action.{Replica, ok}
use consensus_lab.Raft.Apply.{apply_entries}
use consensus_lab.Raft.Apply.Order.{waiting, apply_entries-count, apply_entries_in_order}

-- the messages of the entries, the first of which has the given index
unfoldable pub messages_from : ℕ → List LogEntry → List ApplyMsg
messages_from first [] = []
messages_from first (e ∷ es) = command_msg e.command first ∷ messages_from (first + 1) es

pub length-messages_from :
    (first : ℕ) (es : List LogEntry) → length (messages_from first es) ≡ length es
unfolding messages_from
length-messages_from first [] = refl
length-messages_from first (e ∷ es) = omega (arith, length-messages_from (first + 1) es)

get_elem?-messages_from :
    (first : ℕ) (es : List LogEntry) (k : ℕ) (e : LogEntry)
    → get_elem? es k ≡ some e
    → get_elem? (messages_from first es) k ≡ some (command_msg e.command (first + k))
unfolding messages_from
get_elem?-messages_from first [] k e at = cc
get_elem?-messages_from first (x ∷ es) zero e at = ground arith
get_elem?-messages_from first (x ∷ es) (suc k) e at =
    let shift : first + 1 + k ≡ first + suc k = omega arith in
    rw shift at (get_elem?-messages_from (first + 1) es k e at)

-- the entries that a run with this fuel sends
unfoldable pub to_send : ℕ → Node → List LogEntry
to_send fuel n = take (min fuel (waiting n)) (drop (n.last_applied - n.snapshot_index) n.log)

module _ {S : Type 0} (now fuel : ℕ) (s : Replica S) where
  length-to_send :
      s.node.snapshot_index ≤ s.node.last_applied
      → length (to_send fuel s.node) ≡ min fuel (waiting s.node)
  unfolding to_send last_log_index
  length-to_send base =
      let rest = drop (s.node.last_applied - s.node.snapshot_index) s.node.log in
      omega (
        arith,
        length-take (min fuel (waiting s.node)) rest,
        length-drop (s.node.last_applied - s.node.snapshot_index) s.node.log,
      )

  to_send_read :
      s.node.snapshot_index ≤ s.node.last_applied
      → (k : ℕ) (e : LogEntry) → get_elem? (to_send fuel s.node) k ≡ some e
      → entry_at s.node (s.node.last_applied + 1 + k) ≡ some e
  unfolding to_send entry_at
  to_send_read base k e read =
      let cut = s.node.last_applied - s.node.snapshot_index in
      let rest = drop cut s.node.log in
      let within = get_elem?-lt (to_send fuel s.node) k e read in
      let place : cut + k ≡ s.node.last_applied + 1 + k - s.node.snapshot_index - 1 = omega arith in
      ground (
        arith,
        place,
        length-to_send base,
        within,
        get_elem?-take (min fuel (waiting s.node)) rest k,
        get_elem?-drop cut s.node.log k,
      )

  -- An uninterrupted run of the apply loop, over a log that reaches back to the applied entries,
  -- sends exactly the messages of the waiting entries, as far as the fuel goes.
  pub apply_entries-messages_from :
      s.node.snapshot_index ≤ s.node.last_applied
      → (apply_entries fuel now s).0
        ≡ ok (messages_from (s.node.last_applied + 1) (to_send fuel s.node))
  apply_entries-messages_from base =
      let (msgs, returned, count, moved) = apply_entries-count now fuel s base in
      let first = s.node.last_applied + 1 in
      let size : length (to_send fuel s.node) ≡ length msgs =
        omega (arith, length-to_send base, count) in
      let sent_alike : msgs ≡ messages_from first (to_send fuel s.node) =
        list_ext msgs (messages_from first (to_send fuel s.node))
          (omega (arith, size, length-messages_from first (to_send fuel s.node)))
          (λ k m at.
            let (e, read) =
              get_elem?-of_lt (to_send fuel s.node) k
                (omega (arith, size, get_elem?-lt msgs k m at)) in
            get_elem?-messages_from first (to_send fuel s.node) k e read
            ∙ sym (
                apply_entries_in_order now fuel s msgs k e base returned (get_elem?-lt msgs k m at)
                  (to_send_read base k e read))
            ∙ at) in
      rw (sym sent_alike) returned
