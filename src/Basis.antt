-- ===== src/Basis.antt =====
-- The releases of the regulatory basis: app/modules/regulatory_basis_release.
pub mod Model
pub mod Service
pub mod Active
pub mod Calls
pub mod Eligible
pub mod Tests
