-- ===== src/Api.antt =====
-- The modelled parts of api/: the idempotency store of the HTTP endpoints.
pub mod Idempotency
