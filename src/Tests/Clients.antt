-- ===== src/Tests/Clients.antt =====
-- Clients of three nodes, the second of which leads.
use consensus_lab.Base.{
  ℕ, ◌+◌, ◌==◌, ◌≡◌, ◌⊎◌, inl, inr, refl, Bool, false, if◌then◌else◌, some, List, [], ◌∷◌, arith,
}
use consensus_lab.Transport.Peers.{unavailable}
use consensus_lab.Transport.KvServer.{ClientError, not_the_leader, no_leader, rpc_error}
use consensus_lab.Transport.ClusterClient.{write_to_leader}
use consensus_lab.Transport.ClusterClient.Routing.{
  occurrences, IsPermutation, OthersRefuse, write_to_leader_accepted, write_to_leader_failed,
}

-- the world is the number of the writes that the leader has taken
abbrev accepting : ℕ → ℕ → (ClientError ⊎ ℕ) × ℕ
accepting i w = if i == 1 then (inr (w + 1), w + 1) else (inl not_the_leader, w)

abbrev late : ℕ → ℕ → (ClientError ⊎ ℕ) × ℕ
late i w = if i == 1 then (inl (rpc_error unavailable), w + 1) else (inl not_the_leader, w)

abbrev live : ℕ → Bool
live w = false

abbrev order : List ℕ
order = 2 ∷ 1 ∷ 0 ∷ []

order-IsPermutation : IsPermutation 3 order
unfolding occurrences
order-IsPermutation i = ground arith

accepting-OthersRefuse : OthersRefuse live accepting 1 4
accepting-OthersRefuse i apart = ground arith

late-OthersRefuse : (w : ℕ) → OthersRefuse live late 1 w
late-OthersRefuse w i apart = ground arith

write_to_leader_accepted_example :
    write_to_leader live accepting 3 order (some 0) 4 ≡ (inr 5, some 1, 5)
write_to_leader_accepted_example =
    write_to_leader_accepted live accepting 3 order (some 0) 4 1 5 order-IsPermutation (omega arith)
      refl accepting-OthersRefuse

write_to_leader_failed_example :
    ((write_to_leader live late 3 order (some 0) 4).0 ≡ inl no_leader)
    × ((write_to_leader live late 3 order (some 0) 4).2 ≡ 5)
write_to_leader_failed_example =
    write_to_leader_failed live late 3 order (some 0) 4 1 (rpc_error unavailable)
      order-IsPermutation (omega arith) refl (λ e. cc e) refl (late-OthersRefuse 4)
      (late-OthersRefuse 5)
