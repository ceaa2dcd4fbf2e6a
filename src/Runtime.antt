-- ===== src/Runtime.antt =====
-- The run-time library for generated code, in Kotlin (rsocket-rpc-core/src/main/kotlin/io/rsocket/rpc/
-- kotlin): what travels in a frame's metadata, who takes a request, and how it is traced.
pub mod Common
pub mod Netty
pub mod Metadata
pub mod Tracing
pub mod Splitter
pub mod Router
pub mod Subscriber
pub mod Operator
