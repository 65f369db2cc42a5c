-- ===== src/Guarantees.antt =====
-- What the rules of src/kernel/change guarantee, over single transitions and over histories of them.
pub mod Grants
pub mod Actions
pub mod Settled
pub mod Fulfillment
pub mod Blockers
pub mod Identities
pub mod Grounds
pub mod Creation
pub mod Rejections
pub mod Consent
pub mod Authority
