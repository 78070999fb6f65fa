-- ===== src/Transport/KvServer.antt =====
-- The service over gRPC: internal/transport/grpc/kv/server.go, and `Client` of
-- internal/transport/grpc/kv/client.go. The service is the record `Handler`; gRPC is the argument
-- `stub` of the client's methods. Spans and connections are left out.
pub mod Calls
use consensus_lab.Base.{ℕ, String, Bool, true, false, Option, none, some, ◌⊎◌, inl, inr}
use consensus_lab.Service.{
  Failure, not_leader, commit_timeout, json_error, engine_error, Handled, done, failed, crashed,
}
use consensus_lab.Transport.Peers.{
  Code, failed_precondition, unavailable, internal, other, Reply, answer, status,
}
use consensus_lab.Transport.Peers

-- the messages of pkg/proto/kvv1/kv.pb.go
pub record PbPutRequest : Type 0 where
  pub key : String
  pub value : String

pub record PbPutResponse : Type 0 where
  pub index : ℕ

pub record PbGetRequest : Type 0 where
  pub key : String

pub record PbGetResponse : Type 0 where
  pub found : Bool
  pub value : String

pub record PbDeleteRequest : Type 0 where
  pub key : String

pub record PbDeleteResponse : Type 0 where
  pub index : ℕ

-- what the server uses of the service, over a state `H`
pub record Handler (E H : Type 0) : Type 0 where
  pub get : String → H → Option String
  pub put : String → String → H → Handled E ℕ × H
  pub delete : String → H → Handled E ℕ × H

unfoldable pub kv_grpc_status : {E : Type 0} → Failure E → Code
kv_grpc_status not_leader = failed_precondition
kv_grpc_status commit_timeout = unavailable
kv_grpc_status (json_error e) = internal
kv_grpc_status (engine_error e) = internal

unfoldable pub reply_of_write : {E A : Type 0} → (ℕ → A) → Handled E ℕ → Reply A
unfolding kv_grpc_status
reply_of_write to_pb (done index) = answer (to_pb index)
reply_of_write to_pb (failed e) = status (kv_grpc_status e)
reply_of_write to_pb crashed = Peers.crashed

-- A missing key has the empty value in the answer.
unfoldable pub get_response : Option String → PbGetResponse
get_response none = record { found = false; value = "" }
get_response (some v) = record { found = true; value = v }

module _ {E H : Type 0} (handler : Handler E H) where
  unfoldable pub serve_put : PbPutRequest → H → Reply PbPutResponse × H
  unfolding reply_of_write
  serve_put req h =
      let r = handler.put req.key req.value h in
      (reply_of_write (λ index. record { index = index }) r.0, r.1)

  unfoldable pub serve_get : PbGetRequest → H → Reply PbGetResponse × H
  unfolding get_response
  serve_get req h = (answer (get_response (handler.get req.key h)), h)

  unfoldable pub serve_delete : PbDeleteRequest → H → Reply PbDeleteResponse × H
  unfolding reply_of_write
  serve_delete req h =
      let r = handler.delete req.key h in
      (reply_of_write (λ index. record { index = index }) r.0, r.1)

-- the errors of `Client` and `ClusterClient`
pub data ClientError : Type 0 where
  not_the_leader no_leader all_unavailable : ClientError
  rpc_error : Code → ClientError
  -- the process at the other end has gone
  connection_lost : ClientError
  -- the error of the caller's context
  context_done : ClientError

unfoldable pub from_grpc_status : Code → ClientError
from_grpc_status failed_precondition = not_the_leader
from_grpc_status unavailable = rpc_error unavailable
from_grpc_status internal = rpc_error internal
from_grpc_status (other n) = rpc_error (other n)

unfoldable pub client_result : {A B : Type 0} → (A → B) → Reply A → ClientError ⊎ B
unfolding from_grpc_status
client_result read (answer pb) = inr (read pb)
client_result read (status code) = inl (from_grpc_status code)
client_result read Peers.crashed = inl connection_lost

module _ {W : Type 0} where
  unfoldable pub client_put :
      (PbPutRequest → W → Reply PbPutResponse × W) → String → String → W → (ClientError ⊎ ℕ) × W
  unfolding client_result
  client_put stub key value w =
      let r = stub (record { key = key; value = value }) w in
      (client_result (λ pb. pb.index) r.0, r.1)

  unfoldable pub client_get :
      (PbGetRequest → W → Reply PbGetResponse × W)
      → String
      → W
      → (ClientError ⊎ (String × Bool)) × W
  unfolding client_result
  client_get stub key w =
      let r = stub (record { key = key }) w in (client_result (λ pb. (pb.value, pb.found)) r.0, r.1)

  unfoldable pub client_delete :
      (PbDeleteRequest → W → Reply PbDeleteResponse × W) → String → W → (ClientError ⊎ ℕ) × W
  unfolding client_result
  client_delete stub key w =
      let r = stub (record { key = key }) w in (client_result (λ pb. pb.index) r.0, r.1)
