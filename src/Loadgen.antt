-- ===== src/Loadgen.antt =====
-- The load generator (src/loadgen/src): scripts that drive a browser through the web page.
pub mod Browser
pub mod Selectors
pub mod Numbers
pub mod User
pub mod Helpers
pub mod Calculators
pub mod Visits
pub mod Provider
pub mod Config
pub mod Main
