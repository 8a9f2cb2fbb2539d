-- ===== src/Errors.antt =====
-- errors.go, in modules: the codes, error chains, the conversion, and what holds of them.
pub mod Codes
pub mod Chain
pub mod Convert
pub mod Categories
