-- ===== src/Request.antt =====
-- otel/src/request.rs: what the start and the end of a request do to the environment, which URLs
-- are excluded, and the headers and attributes that a request reads.
pub mod Values
pub mod Urls
pub mod Globs
pub mod Environment
pub mod Variables
pub mod Restoring
mod Examples
