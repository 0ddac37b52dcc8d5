-- ===== src/Uri.antt =====
-- src/utils/uri.cpp and src/inc/uri.h, one child for each group of functions.
pub mod Chars
pub mod HostPort
pub mod Escape
pub mod Dots
pub mod Parse
pub mod Resolve
