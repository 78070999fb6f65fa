-- ===== src/Transport/ClusterClient/Routing.antt =====
-- Which nodes a write reaches, and what the caller is told.
use consensus_lab.Base.{
  ℕ, suc, ◌+◌, ltb, ◌==◌, ◌≤◌, ◌<◌, ◌≡◌, ◌≢◌, refl, ◌⊎◌, inl, inr, Bool, false, if◌then◌else◌, none,
  some, List, [], ◌∷◌, ◌++◌, Bool-cases, arith,
}
use consensus_lab.Transport.KvServer.{
  ClientError, not_the_leader, no_leader, rpc_error, connection_lost, context_done, all_unavailable,
}
use consensus_lab.Transport.ClusterClient.{
  Hint, is_hint, without_hint, hint_first, clear_leader_hint_if, write_order, write_loop,
  write_to_leader,
}

unfoldable pub occurrences : ℕ → List ℕ → ℕ
occurrences i [] = 0
occurrences i (j ∷ js) = let rest = occurrences i js in if i == j then suc rest else rest

-- each number below `n` once, and no other
abbrev pub IsPermutation : ℕ → List ℕ → Type 0
IsPermutation n order = (i : ℕ) → occurrences i order ≡ (if ltb i n then 1 else 0)

occurrences-append :
    (i : ℕ) (xs ys : List ℕ) → occurrences i (xs ++ ys) ≡ occurrences i xs + occurrences i ys
unfolding occurrences
occurrences-append i [] ys = omega arith
occurrences-append i (x ∷ xs) ys = ground (arith, occurrences-append i xs ys)

occurrences-without_hint :
    (i : ℕ) (hint : Hint) (perm : List ℕ)
    → occurrences i (without_hint hint perm) ≡ (if is_hint hint i then 0 else occurrences i perm)
unfolding occurrences without_hint is_hint
occurrences-without_hint i none [] = refl
occurrences-without_hint i (some h) [] = ground arith
occurrences-without_hint i none (j ∷ perm) = ground (arith, occurrences-without_hint i none perm)
occurrences-without_hint i (some h) (j ∷ perm) =
    ground (arith, occurrences-without_hint i (some h) perm)

-- A write tries every node once, whatever the hint.
pub write_order-IsPermutation :
    (n : ℕ) (hint : Hint) (perm : List ℕ)
    → IsPermutation n perm
    → IsPermutation n (write_order n hint perm)
unfolding write_order hint_first is_hint occurrences
write_order-IsPermutation n none perm once =
    λ i. ground (arith, once i, occurrences-without_hint i none perm)
write_order-IsPermutation n (some h) perm once = λ i. ground (
  arith,
  once i,
  occurrences-append i (hint_first n (some h)) (without_hint (some h) perm),
  occurrences-without_hint i (some h) perm,
)

module _ {W : Type 0} (ctx_err : W → Bool) (fn : ℕ → W → (ClientError ⊎ ℕ) × W) where
  -- every node but `l` says that it does not lead, and nothing else comes of it
  abbrev pub OthersRefuse : ℕ → W → Type 0
  OthersRefuse l w = (i : ℕ) → i ≢ l → fn i w ≡ (inl not_the_leader, w)

  write_loop-accepted :
      (l index : ℕ) (order : List ℕ) (hint : Hint) (w : W)
      → (fn l w).0 ≡ inr index
      → OthersRefuse l w
      → 1 ≤ occurrences l order
      → write_loop ctx_err fn order hint w ≡ (inr index, some l, (fn l w).1)
  unfolding write_loop occurrences
  write_loop-accepted l index [] hint w accepts refuse inside = absurd (omega arith)
  write_loop-accepted l index (i ∷ order) hint w accepts refuse inside =
      elim (Bool-cases (l == i)) [
        | inl here ↦ ground arith
        | inr other ↦ ground (
          arith,
          refuse i,
          write_loop-accepted l index order (clear_leader_hint_if i hint) w accepts refuse,
        )
      ]

  -- A write reaches the leader and brings back its index, if one of the nodes accepts it and the
  -- others say that they do not lead and change nothing, whatever the order and the hint; the node
  -- is remembered, and no other node is changed.
  pub write_to_leader_accepted :
      (n : ℕ) (perm : List ℕ) (hint : Hint) (w : W) (l index : ℕ)
      → IsPermutation n perm
      → l < n
      → (fn l w).0 ≡ inr index
      → OthersRefuse l w
      → write_to_leader ctx_err fn n perm hint w ≡ (inr index, some l, (fn l w).1)
  unfolding write_to_leader
  write_to_leader_accepted n perm hint w l index once inside accepts refuse =
      write_loop-accepted l index (write_order n hint perm) hint w accepts refuse
        (ground (arith, write_order-IsPermutation n hint perm once l))

  write_loop-refused :
      (l : ℕ) (order : List ℕ) (hint : Hint) (w : W)
      → OthersRefuse l w
      → occurrences l order ≡ 0
      → ((write_loop ctx_err fn order hint w).0 ≡ inl no_leader)
        × ((write_loop ctx_err fn order hint w).2 ≡ w)
  unfolding write_loop occurrences
  write_loop-refused l [] hint w refuse outside = (refl, refl)
  write_loop-refused l (i ∷ order) hint w refuse outside =
      ground (arith, refuse i, write_loop-refused l order (clear_leader_hint_if i hint) w refuse)

  after_error :
      (i : ℕ) (order : List ℕ) (hint : Hint) (w : W) (e : ClientError)
      → (fn i w).0 ≡ inl e
      → e ≢ not_the_leader
      → ctx_err (fn i w).1 ≡ false
      → write_loop ctx_err fn (i ∷ order) hint w ≡ write_loop ctx_err fn order hint (fn i w).1
  unfolding write_loop
  after_error i order hint w not_the_leader fails apart live = absurd (apart refl)
  after_error i order hint w no_leader fails apart live = ground arith
  after_error i order hint w all_unavailable fails apart live = ground arith
  after_error i order hint w (rpc_error c) fails apart live = ground arith
  after_error i order hint w connection_lost fails apart live = ground arith
  after_error i order hint w context_done fails apart live = ground arith

  write_loop-failed :
      (l : ℕ) (order : List ℕ) (hint : Hint) (w : W) (e : ClientError)
      → (fn l w).0 ≡ inl e
      → e ≢ not_the_leader
      → ctx_err (fn l w).1 ≡ false
      → OthersRefuse l w
      → OthersRefuse l (fn l w).1
      → occurrences l order ≡ 1
      → ((write_loop ctx_err fn order hint w).0 ≡ inl no_leader)
        × ((write_loop ctx_err fn order hint w).2 ≡ (fn l w).1)
  unfolding write_loop occurrences
  write_loop-failed l [] hint w e fails apart live refuse refuse' one = absurd (omega arith)
  write_loop-failed l (i ∷ order) hint w e fails apart live refuse refuse' one =
      elim (Bool-cases (l == i)) [
        | inl here ↦ ground (
          arith,
          after_error l order hint w e fails apart live,
          write_loop-refused l order hint (fn l w).1 refuse',
        )
        | inr other ↦ ground (
          arith,
          refuse i,
          write_loop-failed l order (clear_leader_hint_if i hint) w e fails apart live refuse
              refuse',
        )
      ]

  -- If the leader fails with another error, such as the one for a write that it has accepted but
  -- not committed in time, and the caller's context is not done, while the other nodes say that
  -- they do not lead and change nothing, then the caller is told that there is no leader, and the
  -- leader's change stays.
  pub write_to_leader_failed :
      (n : ℕ) (perm : List ℕ) (hint : Hint) (w : W) (l : ℕ) (e : ClientError)
      → IsPermutation n perm
      → l < n
      → (fn l w).0 ≡ inl e
      → e ≢ not_the_leader
      → ctx_err (fn l w).1 ≡ false
      → OthersRefuse l w
      → OthersRefuse l (fn l w).1
      → ((write_to_leader ctx_err fn n perm hint w).0 ≡ inl no_leader)
        × ((write_to_leader ctx_err fn n perm hint w).2 ≡ (fn l w).1)
  unfolding write_to_leader
  write_to_leader_failed n perm hint w l e once inside fails apart live refuse refuse' =
      write_loop-failed l (write_order n hint perm) hint w e fails apart live refuse refuse'
        (ground (arith, write_order-IsPermutation n hint perm once l))
