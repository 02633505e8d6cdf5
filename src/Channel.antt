-- ===== src/Channel.antt =====
-- include/dart_cpp_bridge: channels and streams for coroutines.
pub mod Ring
pub mod Line
pub mod Mpsc
pub mod Oneshot
pub mod Streams
