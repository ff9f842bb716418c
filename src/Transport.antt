-- ===== src/Transport.antt =====
-- internal/transport: the connection layer; its credit ledger is modelled.
pub mod Credit
mod Witnesses
