-- ===== src/Offer.antt =====
-- The offer service (src/offerservice/src): environment, offers, plugins, signup,
-- version and the application that serves them.
pub mod Env
pub mod Plugin
pub mod Signup
pub mod Version
pub mod Sample
pub mod Catalog
pub mod App
