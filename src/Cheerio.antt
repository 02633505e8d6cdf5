-- ===== src/Cheerio.antt =====
-- include/qjsbind/cheerio/lexbor_match.hpp: the CSS matcher on lexbor's tree.
pub mod Ints
pub mod Anb
pub mod Words
pub mod Dom
pub mod Match
pub mod Query
