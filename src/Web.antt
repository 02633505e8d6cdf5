-- ===== src/Web.antt =====
-- include/qjsbind/web: the parts of the web layer that are plain C++.
pub mod Utf8
pub mod Params
pub mod FormData
pub mod BoostUrls
pub mod Url
pub mod Headers
pub mod Tee
pub mod Stream
