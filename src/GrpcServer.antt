-- ===== src/GrpcServer.antt =====
-- components/grpcserver: a gRPC server as a component.
pub mod Interceptors
pub mod Chain
pub mod Server
