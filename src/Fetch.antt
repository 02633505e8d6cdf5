-- ===== src/Fetch.antt =====
-- include/fetch and src/fetch: the fetch core library.
pub mod Types
pub mod HeaderOps
pub mod Base64
pub mod Percent
pub mod DataUrl
pub mod Integrity
pub mod Urls
pub mod Ports
pub mod Resolve
pub mod Chain
pub mod Client
pub mod Socks5
