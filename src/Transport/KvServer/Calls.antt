-- ===== src/Transport/KvServer/Calls.antt =====
-- What a client of one node is told, from what the service says.
use consensus_lab.Base.{
  ℕ, String, ◌≡◌, refl, Bool, ◌⊎◌, inl, inr, true, false, Option, none, some, arith,
}
use consensus_lab.Service.{
  not_leader, commit_timeout, json_error, engine_error, Handled, done, failed, crashed,
}
use consensus_lab.Transport.Peers.{unavailable, internal}
use consensus_lab.Transport.KvServer.{
  Handler, PbPutResponse, PbDeleteResponse, ClientError, not_the_leader, rpc_error, connection_lost,
  reply_of_write, client_result, get_response, serve_put, serve_get, serve_delete, client_put,
  client_get, client_delete,
}

-- The index of a write; a refusal as one, a write that is late as unavailable, and any other failure
-- as internal.
unfoldable pub told : {E : Type 0} → Handled E ℕ → ClientError ⊎ ℕ
told (done index) = inr index
told (failed not_leader) = inl not_the_leader
told (failed commit_timeout) = inl (rpc_error unavailable)
told (failed (json_error e)) = inl (rpc_error internal)
told (failed (engine_error e)) = inl (rpc_error internal)
told crashed = inl connection_lost

-- a value that was found, or the empty one
unfoldable pub found : Option String → String × Bool
found none = ("", false)
found (some v) = (v, true)

module _ {E : Type 0} {A : Type 0} where
  client_result-told :
      (to_pb : ℕ → A) (read : A → ℕ) (r : Handled E ℕ)
      → ((index : ℕ) → read (to_pb index) ≡ index)
      → client_result read (reply_of_write to_pb r) ≡ told r
  unfolding client_result reply_of_write told
  client_result-told to_pb read (done index) back = ground (arith, back index)
  client_result-told to_pb read (failed not_leader) back = refl
  client_result-told to_pb read (failed commit_timeout) back = refl
  client_result-told to_pb read (failed (json_error e)) back = refl
  client_result-told to_pb read (failed (engine_error e)) back = refl
  client_result-told to_pb read crashed back = refl

module _ {E H : Type 0} (handler : Handler E H) where
  -- A Put that a client sends to a node's server does to the service what a call of its Put does. The
  -- caller gets the index, or the error that stands for the service's.
  pub client_put-serve_put :
      (key value : String) (h : H)
      → client_put (serve_put handler) key value h
        ≡ (told (handler.put key value h).0, (handler.put key value h).1)
  unfolding client_put serve_put
  client_put-serve_put key value h = ground (
    arith,
    client_result-told {A = PbPutResponse} (λ index. record { index = index }) (λ pb. pb.index)
        (handler.put key value h).0 (λ index. refl),
  )

  pub client_delete-serve_delete :
      (key : String) (h : H)
      → client_delete (serve_delete handler) key h
        ≡ (told (handler.delete key h).0, (handler.delete key h).1)
  unfolding client_delete serve_delete
  client_delete-serve_delete key h = ground (
    arith,
    client_result-told {A = PbDeleteResponse} (λ index. record { index = index }) (λ pb. pb.index)
        (handler.delete key h).0 (λ index. refl),
  )

  pub client_get-serve_get :
      (key : String) (h : H)
      → client_get (serve_get handler) key h ≡ (inr (found (handler.get key h)), h)
  unfolding client_get serve_get client_result get_response found
  client_get-serve_get key h = ground arith
