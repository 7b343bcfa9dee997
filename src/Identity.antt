-- ===== src/Identity.antt =====
-- The checksums of a person's identity and bank account: lib/nationalId.ts and lib/iban.ts.
pub mod Digits
pub mod NationalId
pub mod Iban
