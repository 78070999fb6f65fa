-- ===== src/Transport/ClusterClient.antt =====
-- `ClusterClient` of internal/transport/grpc/kv/client.go. A call of one node's client is a function
-- on the world `W` of the nodes; the permutations of math/rand are arguments, and so is the test of
-- the caller's context. The calls of one client object follow one another here.
pub mod Routing
use consensus_lab.Base.{
  ℕ, ltb, ◌==◌, ◌⊎◌, inl, inr, String, Bool, true, false, if◌then◌else◌, Option, none, some, List,
  [], ◌∷◌, ◌++◌,
}
use consensus_lab.Transport.KvServer.{
  ClientError, not_the_leader, no_leader, all_unavailable, rpc_error, connection_lost, context_done,
}

-- the client's `leaderHint`, none for -1
abbrev pub Hint : Type 0
Hint = Option ℕ

unfoldable pub is_hint : Hint → ℕ → Bool
is_hint none i = false
is_hint (some h) i = i == h

unfoldable pub clear_leader_hint_if : ℕ → Hint → Hint
unfolding is_hint
clear_leader_hint_if i hint = if is_hint hint i then none else hint

-- the loop over the permutation in `writeOrder`
unfoldable pub without_hint : Hint → List ℕ → List ℕ
unfolding is_hint
without_hint hint [] = []
without_hint hint (i ∷ perm) =
    let rest = without_hint hint perm in if is_hint hint i then rest else i ∷ rest

unfoldable pub hint_first : ℕ → Hint → List ℕ
hint_first n none = []
hint_first n (some h) = if ltb h n then h ∷ [] else []

-- `n` is the number of the clients
unfoldable pub write_order : ℕ → Hint → List ℕ → List ℕ
unfolding without_hint hint_first
write_order n hint perm = hint_first n hint ++ without_hint hint perm

module _ {W : Type 0} (ctx_err : W → Bool) where
  -- The loop of `writeToLeader` over the order. The result is the answer, the hint and the world.
  unfoldable pub write_loop :
      (ℕ → W → (ClientError ⊎ ℕ) × W) → List ℕ → Hint → W → (ClientError ⊎ ℕ) × Hint × W
  unfolding clear_leader_hint_if
  write_loop fn [] hint w = (inl no_leader, hint, w)
  write_loop fn (i ∷ order) hint w = elim (fn i w).0 [
    | inr index ↦ (inr index, some i, (fn i w).1)
    | inl not_the_leader ↦ write_loop fn order (clear_leader_hint_if i hint) (fn i w).1
    | inl e ↦ elim (ctx_err (fn i w).1) [
      | true ↦ (inl context_done, hint, (fn i w).1)
      | false ↦ write_loop fn order hint (fn i w).1
    ]
  ]

  unfoldable pub write_to_leader :
      (ℕ → W → (ClientError ⊎ ℕ) × W) → ℕ → List ℕ → Hint → W → (ClientError ⊎ ℕ) × Hint × W
  unfolding write_order write_loop
  write_to_leader fn n perm hint w = write_loop fn (write_order n hint perm) hint w

  -- `Get` over a permutation of the nodes
  unfoldable pub cluster_get :
      (ℕ → W → (ClientError ⊎ (String × Bool)) × W)
      → List ℕ
      → W
      → (ClientError ⊎ (String × Bool)) × W
  cluster_get fn [] w = (inl all_unavailable, w)
  cluster_get fn (i ∷ perm) w = elim (fn i w).0 [
    | inr found ↦ (inr found, (fn i w).1)
    | inl e ↦ elim (ctx_err (fn i w).1) [
      | true ↦ (inl context_done, (fn i w).1)
      | false ↦ cluster_get fn perm (fn i w).1
    ]
  ]
