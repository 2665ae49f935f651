-- ===== src/Models.antt =====
-- models/: the registry of models and the router between them.
pub mod Numbers
pub mod Registry
pub mod Routing
pub mod Catalog
mod Tests
