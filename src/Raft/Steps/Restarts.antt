-- ===== src/Raft/Steps/Restarts.antt =====
-- A replica that is restarted from its storage in between: its vote stands.
pub mod Handlers
pub mod Followers
pub mod Leaders
pub mod Runs
use consensus_lab.Base.{
  ℕ, ◌+◌, ◌≤◌, ◌<◌, ◌≡◌, ◌≢◌, ◌⊎◌, inl, inr, refl, sym, ap, true, String, Option, Option-cases,
  List, [], ◌∷◌, eq_iff, arith, none, some,
}
use consensus_lab.Raft.Types.{
  Bytes, HardState, LogEntry, Snapshot, PersistentState, RequestVoteRequest, RequestVoteResponse,
  AppendEntriesRequest, AppendEntriesResponse, InstallSnapshotRequest, InstallSnapshotResponse,
}
use consensus_lab.Raft.Storage.{Storage, IsDurable, IsAtomic}
use consensus_lab.Raft.Node.{Node, hard_state}
use consensus_lab.Raft.Action.{Replica, Outcome, ok, err, panic, Action, continue}
use consensus_lab.Raft.Vote.{handle_request_vote}
use consensus_lab.Raft.Append.{
  handle_append_entries, append_current, append_term_update, after_check, commit_update, check_prev,
  merge_entries,
}
use consensus_lab.Raft.Command.{start_command, take_snapshot}
use consensus_lab.Raft.Commit.{advance_commit_index}
use consensus_lab.Raft.Install.{install_term_update, install, handle_install_snapshot}
use consensus_lab.Raft.Replicate.{
  append_entries_request_for_peer, install_snapshot_request_for_peer, send_append_entries,
  send_install_snapshot,
}
use consensus_lab.Raft.Election.{election_timeout, start_election, handle_vote_response}

-- The vote `v` of the term `t` still stands beside the vote `v'` of the term `t'`.
abbrev pub Stands : ℕ → String → ℕ → String → Type 0
Stands t v t' v' = (t < t') ⊎ ((t ≡ t') × ((v ≡ "") ⊎ (v' ≡ v)))

module _ {S : Type 0} (st : Storage S) (stored : S → PersistentState) where
  pub save_hard_state_cases :
      (h : HardState) (d : S)
      → IsDurable st stored
      → IsAtomic st stored
      → (((st.save_hard_state h d).0 ≡ none) × ((stored (st.save_hard_state h d).1).hard ≡ h))
        ⊎ ((e : _) × ((st.save_hard_state h d).0 ≡ some e)
            × ((stored (st.save_hard_state h d).1).hard ≡ (stored d).hard))
  save_hard_state_cases h d durable atomic = elim (Option-cases (st.save_hard_state h d).0) [
    | inl fine ↦
        inl (fine, ap (λ (p : PersistentState). p.hard) (durable.save_hard_state_ok h d fine))
    | inr (e, bad) ↦
        inr (e, bad, ap (λ (p : PersistentState). p.hard) (atomic.save_hard_state_err h d bad))
  ]

  pub append_log-hard :
      (es : List LogEntry) (d : S)
      → IsDurable st stored
      → IsAtomic st stored
      → (stored (st.append_log es d).1).hard ≡ (stored d).hard
  append_log-hard es d durable atomic = elim (Option-cases (st.append_log es d).0) [
    | inl fine ↦ ap (λ (p : PersistentState). p.hard) (durable.append_log_ok es d fine)
    | inr (e, bad) ↦ ap (λ (p : PersistentState). p.hard) (atomic.append_log_err es d bad)
  ]

  pub truncate_log-hard :
      (n : ℕ) (d : S)
      → IsDurable st stored
      → IsAtomic st stored
      → (stored (st.truncate_log n d).1).hard ≡ (stored d).hard
  truncate_log-hard n d durable atomic = elim (Option-cases (st.truncate_log n d).0) [
    | inl fine ↦ ap (λ (p : PersistentState). p.hard) (durable.truncate_log_ok n d fine)
    | inr (e, bad) ↦ ap (λ (p : PersistentState). p.hard) (atomic.truncate_log_err n d bad)
  ]

  pub set_log-hard :
      (base : ℕ) (es : List LogEntry) (d : S)
      → IsDurable st stored
      → IsAtomic st stored
      → (stored (st.set_log base es d).1).hard ≡ (stored d).hard
  set_log-hard base es d durable atomic = elim (Option-cases (st.set_log base es d).0) [
    | inl fine ↦ ap (λ (p : PersistentState). p.hard) (durable.set_log_ok base es d fine)
    | inr (e, bad) ↦ ap (λ (p : PersistentState). p.hard) (atomic.set_log_err base es d bad)
  ]

  pub save_snapshot-hard :
      (s : Snapshot) (d : S)
      → IsDurable st stored
      → IsAtomic st stored
      → (stored (st.save_snapshot s d).1).hard ≡ (stored d).hard
  save_snapshot-hard s d durable atomic = elim (Option-cases (st.save_snapshot s d).0) [
    | inl fine ↦ ap (λ (p : PersistentState). p.hard) (durable.save_snapshot_ok s d fine)
    | inr (e, bad) ↦ ap (λ (p : PersistentState). p.hard) (atomic.save_snapshot_err s d bad)
  ]

module _ {S : Type 0} (stored : S → PersistentState) where
  -- the stored vote stands in the node
  abbrev pub Vouched : Replica S → Type 0
  Vouched s =
      Stands (stored s.disk).hard.current_term (stored s.disk).hard.voted_for s.node.current_term
        s.node.voted_for

  abbrev pub Durably : Replica S → Replica S → Type 0
  Durably s t =
      Vouched t
      × Stands (stored s.disk).hard.current_term (stored s.disk).hard.voted_for
          (stored t.disk).hard.current_term (stored t.disk).hard.voted_for

  Stands-trans :
      (t t' t'' : ℕ) (v v' v'' : String)
      → Stands t v t' v'
      → Stands t' v' t'' v''
      → Stands t v t'' v''
  Stands-trans t t' t'' v v' v'' h k = ground arith

  pub Durably-trans : (s t u : Replica S) → Durably s t → Durably t u → Durably s u
  Durably-trans s t u h k = (k.0, Stands-trans _ _ _ _ _ _ h.1 k.1)

  -- a sequence of actions
  pub continue-Durably :
      {A B : Type 0} (o : Outcome A) (f : A → Action S B) (s t : Replica S)
      → Durably s t
      → ((a : A) → Durably t (f a t).1)
      → Durably s (continue o f t).1
  continue-Durably (ok a) f s t h next = Durably-trans s t (f a t).1 h (next a)
  continue-Durably (err e) f s t h next = h
  continue-Durably panic f s t h next = h

  -- nothing that is voted on has changed
  pub Durably-same :
      (s t : Replica S)
      → Vouched s
      → (stored t.disk).hard ≡ (stored s.disk).hard
      → t.node.current_term ≡ s.node.current_term
      → t.node.voted_for ≡ s.node.voted_for
      → Durably s t
  Durably-same s t base disk term vote = ground arith
