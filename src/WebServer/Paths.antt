-- ===== src/WebServer/Paths.antt =====
-- The files that the web server opens stand under its document root: from `remove_dots` and the
-- joining of the name in `process_request`.
pub mod Joined
pub mod Rebuilt
pub mod Root
