-- ===== src/Raft/Install/Installed.antt =====
-- What an installed snapshot leaves on the replica and on its storage.
use consensus_lab.Base.{
  ℕ, ◌+◌, ◌-◌, ◌≤◌, ◌<◌, ◌≡◌, refl, ap, ◌∙◌, max, List, Option-cases, inl, inr, some,
  get_elem?-drop, get_elem?-none, length-drop, arith,
}
use consensus_lab.Raft.Types.{
  follower, LogEntry, HardState, Snapshot, InstallSnapshotRequest, InstallSnapshotResponse,
  PersistentState,
}
use consensus_lab.Raft.Storage.{Storage, IsDurable, IsAtomic}
use consensus_lab.Raft.Node.{Node, last_log_index, entry_at}
use consensus_lab.Raft.Action.{Replica, ok, reset_election_timeout}
use consensus_lab.Raft.Install.{retained, install_term_update, install, handle_install_snapshot}

-- the snapshot that a request carries
abbrev pub snapshot_of : InstallSnapshotRequest → Snapshot
snapshot_of req = record {
  last_included_index = req.last_included_index;
  last_included_term = req.last_included_term;
  config = req.config;
  bytes = req.bytes;
}

abbrev pub with_snapshot : Snapshot → Node → Node
with_snapshot snap n = record n { log = retained snap n; snapshot_index = snap.last_included_index }

retained_entry :
    (snap : Snapshot) (n : Node) (i : ℕ)
    → n.snapshot_index < snap.last_included_index
    → snap.last_included_index < i
    → entry_at (with_snapshot snap n) i ≡ entry_at n i
unfolding retained entry_at last_log_index
retained_entry snap n i beyond later =
    let cut = snap.last_included_index - n.snapshot_index in
    let place : cut + (i - snap.last_included_index - 1) ≡ i - n.snapshot_index - 1 = omega arith in
    ground (
      arith,
      place,
      get_elem?-drop cut n.log (i - snap.last_included_index - 1),
      get_elem?-none n.log (i - n.snapshot_index - 1),
    )

retained_last :
    (snap : Snapshot) (n : Node)
    → n.snapshot_index < snap.last_included_index
    → last_log_index (with_snapshot snap n) ≡ max snap.last_included_index (last_log_index n)
unfolding retained last_log_index
retained_last snap n beyond =
    ground (arith, length-drop (snap.last_included_index - n.snapshot_index) n.log)

module _ {S : Type 0} (st : Storage S) (req : InstallSnapshotRequest) (s : Replica S) where
  term_updated :
      (install_term_update st req s).0 ≡ ok tt
      → s.node.current_term ≤ req.term
      → let after = (install_term_update st req s).1.node in
        (after.current_term ≡ req.term)
        × (after.log ≡ s.node.log)
        × (after.snapshot_index ≡ s.node.snapshot_index)
        × (after.commit_index ≡ s.node.commit_index)
        × (after.last_applied ≡ s.node.last_applied)
  unfolding install_term_update
  term_updated returned newer = ground arith

  snapshot_applied :
      (install st req s).0 ≡ ok tt
      → let after = (install st req s).1.node in
        (after.role ≡ s.node.role)
        × (after.current_term ≡ s.node.current_term)
        × (after.snapshot ≡ some (snapshot_of req))
        × (after.log ≡ retained (snapshot_of req) s.node)
        × (after.snapshot_index ≡ req.last_included_index)
        × (after.commit_index ≡ max s.node.commit_index req.last_included_index)
  unfolding install
  snapshot_applied returned = ground arith

  -- the replica in which the snapshot is installed
  before_install : Replica S
  before_install =
      let t = (install_term_update st req s).1 in
      record t { node = reset_election_timeout (record t.node { role = follower }) }

  handled_by_install :
      (resp : InstallSnapshotResponse)
      → (handle_install_snapshot st req s).0 ≡ ok resp
      → s.node.current_term ≤ req.term
      → s.node.snapshot_index < req.last_included_index
      → ((install_term_update st req s).0 ≡ ok tt)
        × ((install st req before_install).0 ≡ ok tt)
        × ((handle_install_snapshot st req s).1 ≡ (install st req before_install).1)
        × (resp.term ≡ (install_term_update st req s).1.node.current_term)
  unfolding handle_install_snapshot before_install
  handled_by_install resp returned newer beyond = ground (arith, term_updated)

retained_same :
    (snap : Snapshot) (n m : Node)
    → n.log ≡ m.log
    → n.snapshot_index ≡ m.snapshot_index
    → retained snap n ≡ retained snap m
unfolding retained last_log_index
retained_same snap n m logs bases = rw (logs, bases) refl

module _ {S : Type 0} (st : Storage S) (req : InstallSnapshotRequest) (s : Replica S) where
  installed_node :
      (resp : InstallSnapshotResponse)
      → (handle_install_snapshot st req s).0 ≡ ok resp
      → s.node.current_term ≤ req.term
      → s.node.snapshot_index < req.last_included_index
      → let after = (handle_install_snapshot st req s).1.node in
        (after.role ≡ follower)
        × (after.current_term ≡ req.term)
        × (after.snapshot ≡ some (snapshot_of req))
        × (after.log ≡ retained (snapshot_of req) s.node)
        × (after.snapshot_index ≡ req.last_included_index)
        × (after.commit_index ≡ max s.node.commit_index req.last_included_index)
  unfolding before_install
  installed_node resp returned newer beyond =
      let (updated, taken, whole, told) = handled_by_install st req s resp returned newer beyond in
      let (term, logs, bases, commits, applied) = term_updated st req s updated newer in
      let t = before_install st req s in
      let (role, term', snap, log, base, commit) = snapshot_applied st req t taken in
      rw whole (
        role,
        term' ∙ term,
        snap,
        log ∙ retained_same (snapshot_of req) t.node s.node logs bases,
        base,
        commit ∙ ap (λ c. max c req.last_included_index) commits,
      )

  -- A snapshot beyond the replica's own, in a request of no older term that is answered without an
  -- error, leaves a follower of the request's term that holds the snapshot. The entries after the
  -- snapshot stay at their indices, and the last index and the commit index are the old ones or the
  -- snapshot's, whichever is greater.
  pub install_snapshot_kept :
      (resp : InstallSnapshotResponse) (i : ℕ)
      → (handle_install_snapshot st req s).0 ≡ ok resp
      → s.node.current_term ≤ req.term
      → s.node.snapshot_index < req.last_included_index
      → req.last_included_index < i
      → let after = (handle_install_snapshot st req s).1.node in
        (after.role ≡ follower)
        × (after.current_term ≡ req.term)
        × (after.snapshot ≡ some (snapshot_of req))
        × (after.snapshot_index ≡ req.last_included_index)
        × (after.commit_index ≡ max s.node.commit_index req.last_included_index)
        × (last_log_index after ≡ max req.last_included_index (last_log_index s.node))
        × (entry_at after i ≡ entry_at s.node i)
  unfolding last_log_index entry_at
  install_snapshot_kept resp i returned newer beyond later =
      let (role, term, snap, log, base, commit) = installed_node resp returned newer beyond in
      (
        role,
        term,
        snap,
        base,
        commit,
        rw (base, log) (retained_last (snapshot_of req) s.node beyond),
        rw (base, log) (retained_entry (snapshot_of req) s.node i beyond later),
      )

module _ {S : Type 0} (st : Storage S) (stored : S → PersistentState) where
  save_hard_state-snapshot :
      (h : HardState) (d : S)
      → IsDurable st stored
      → IsAtomic st stored
      → (stored (st.save_hard_state h d).1).snapshot ≡ (stored d).snapshot
  save_hard_state-snapshot h d durable atomic = elim (Option-cases (st.save_hard_state h d).0) [
    | inl fine ↦ ap (λ (p : PersistentState). p.snapshot) (durable.save_hard_state_ok h d fine)
    | inr (e, bad) ↦ ap (λ (p : PersistentState). p.snapshot) (atomic.save_hard_state_err h d bad)
  ]

  set_log-snapshot :
      (base : ℕ) (es : List LogEntry) (d : S)
      → IsDurable st stored
      → IsAtomic st stored
      → (stored (st.set_log base es d).1).snapshot ≡ (stored d).snapshot
  set_log-snapshot base es d durable atomic = elim (Option-cases (st.set_log base es d).0) [
    | inl fine ↦ ap (λ (p : PersistentState). p.snapshot) (durable.set_log_ok base es d fine)
    | inr (e, bad) ↦ ap (λ (p : PersistentState). p.snapshot) (atomic.set_log_err base es d bad)
  ]

  install-snapshot :
      (req : InstallSnapshotRequest) (s : Replica S)
      → IsDurable st stored
      → IsAtomic st stored
      → (install st req s).0 ≡ ok tt
      → (stored (install st req s).1.disk).snapshot ≡ some (snapshot_of req)
  unfolding install
  install-snapshot req s durable atomic returned =
      let saved = durable.save_snapshot_ok (snapshot_of req) s.disk in
      grind (arith, saved, save_hard_state-snapshot, set_log-snapshot)

  -- On a storage whose calls take effect when they return no error, and have no effect when they
  -- return one, a snapshot beyond the replica's own, in a request of no older term that is answered
  -- without an error, is the one that a restart loads.
  pub install_snapshot_stored :
      (req : InstallSnapshotRequest) (s : Replica S) (resp : InstallSnapshotResponse)
      → IsDurable st stored
      → IsAtomic st stored
      → (handle_install_snapshot st req s).0 ≡ ok resp
      → s.node.current_term ≤ req.term
      → s.node.snapshot_index < req.last_included_index
      → (stored (handle_install_snapshot st req s).1.disk).snapshot ≡ some (snapshot_of req)
  install_snapshot_stored req s resp durable atomic returned newer beyond =
      let (updated, taken, whole, told) = handled_by_install st req s resp returned newer beyond in
      rw whole (install-snapshot req (before_install st req s) durable atomic taken)
