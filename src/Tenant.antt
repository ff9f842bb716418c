-- ===== src/Tenant.antt =====
-- internal/tenant: the byte accounts of the namespaces.
pub mod Quota
mod Witnesses
