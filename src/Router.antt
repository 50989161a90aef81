-- ===== src/Router.antt =====
-- internal/router: site paths, the host convention, and the dispatch by host.
pub mod Label
pub mod SitePath
pub mod Host
mod Tests
