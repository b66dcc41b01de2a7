-- ===== src/Transport.antt =====
-- internal/transport/transport.go, with the dispatch of internal/auth/provider.go and `AdmitHost`: one
-- request of the model, from its arguments to the wire.
pub mod Message
pub mod Providers
pub mod Request
pub mod Prepared
pub mod Vetted
pub mod Clamps
mod Tests
