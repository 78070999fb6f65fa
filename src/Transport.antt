-- ===== src/Transport.antt =====
-- The gRPC transport between replicas: internal/transport/grpc/raft. Connections and spans are left
-- out.
pub mod Messages
pub mod Mapping
pub mod Peers
pub mod KvServer
pub mod ClusterClient
pub mod Admin
