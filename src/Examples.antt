-- ===== src/Examples.antt =====
-- Concrete runs of the modelled code, by the part of the program.
mod OfferRuns
mod OfferEffects
mod LoadgenRuns
mod FrontendRuns
mod FrontendPages
mod FormRuns
mod FormPages
mod ViewRuns
mod PriceRuns
mod RouteRuns
mod CacheRuns
mod FlagRuns
mod TableRuns
mod CardRuns
mod MainRuns
mod AppRuns
