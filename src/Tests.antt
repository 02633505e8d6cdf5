-- ===== src/Tests.antt =====
-- Concrete inputs: one example for each result that has conditions or arguments.
mod Fetching
mod Texts
mod Pages
mod Channels
mod Urls
mod Forms
mod Oneshots
