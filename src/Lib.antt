-- ===== src/Lib.antt =====
-- The C++ core of a JavaScript runtime on QuickJS: its HTTP fetch library, the web classes that
-- scripts see, the CSS matcher of its cheerio module, and the channels of its bridge to Dart.
--
-- The parts and how they interact. A script calls `fetch`, whose binding makes a `fetch::Request`
-- and hands it to `fetch::Client`. The client answers `data:` URLs itself, and otherwise runs a
-- loop over redirects: each hop is checked for blocked ports and goes through the chain of
-- middlewares (compression, integrity, proxies) to a `Transport`. Bodies are pull sources that wrap
-- one another. The web layer keeps headers in `HeadersImpl` and bodies in `ReadableStreamImpl`,
-- which `TeeSource` splits for clones. The cheerio module queries lexbor's tree by selectors. The
-- bridge's channels hand values from senders to one receiver, each side a coroutine that may wait.
--
-- Files and the code they model:
--   Fetch/Types        include/fetch/types.hpp, error.hpp, transport.hpp, body.hpp: the value types
--   Fetch/HeaderOps    include/fetch/types.hpp: header lists (`strip_headers`, `location_of`, ...)
--   Fetch/Percent, Fetch/Base64, Fetch/DataUrl
--                      include/fetch/types.hpp: the codecs and `parse_data_url`
--   Fetch/Integrity    include/fetch/types.hpp: `check_integrity`; include/fetch/middleware.hpp:
--                      `IntegritySource`, and `read_all` of include/fetch/body.hpp
--   Fetch/Ports        include/fetch/url_check.hpp
--   Fetch/Resolve      include/fetch/client.hpp: `resolve_url`; Fetch/Urls is boost::urls as a
--                      parameter
--   Fetch/Chain        include/fetch/middleware.hpp: `make_chain` and the middlewares
--   Fetch/Client       include/fetch/client.hpp: `Client`
--   Fetch/Socks5       src/fetch/socks5.cpp
--   Web/Utf8           include/qjsbind/web/utf8.hpp: `percent_encode`
--   Web/Params, Web/Url
--                      include/qjsbind/web/url.hpp: `UrlSearchParamsImpl` with its codec, and
--                      `UrlImpl`; Web/BoostUrls is boost::urls as a parameter
--   Web/FormData       include/qjsbind/web/formdata.hpp: `FormDataImpl` and the multipart text
--   Web/Headers        include/qjsbind/web/headers.hpp: `HeadersImpl`
--   Web/Tee, Web/Stream
--                      include/qjsbind/web/stream.hpp: `TeeSource` and `ReadableStreamImpl`
--   Cheerio            include/qjsbind/cheerio/lexbor_match.hpp: attributes and words (Words),
--                      `an+b` (Anb), lexbor's tree as a parameter (Dom), `CTreeMatcher` (Match) and
--                      `c_query_all` (Query)
--   Channel            include/dart_cpp_bridge/channel.hpp: `co::oneshot` (Oneshot), `co::mpsc` (Mpsc); rigtorp::MPMCQueue is a
--                      parameter (Ring), and Line is what a channel promises;
--                      include/dart_cpp_bridge/stream.hpp: the adapters of streams (Streams)
--   Common             lists, texts, results and numbers that the parts share
--   Tests              concrete inputs
-- The modules below a component's file hold its results.
--
-- State and errors. A struct is a record and a method a function from the record to the changed
-- one; names are the source's. What throws gives a `Result`; the client's coroutines are functions
-- of the state of the transport and the middlewares, `M`, and what an exception leaves changed stays
-- changed. The streams are step machines whose events are the calls and the completions of the
-- source's reads, in any order. So is a channel: an event is the start, the stop or the destruction of
-- an operation, or a call, and what the code does under the mutex is one step with the completions
-- that it fires after it.
--
-- Bounds and fuel. Loops over texts and lists are structural. The redirect loop runs on the rounds
-- that `max_redirects` leaves. `read_all` has fuel, of which one more than the blocks is enough, as
-- its result states. The word loop takes one more than the text's length, and so does the loop over
-- the items of a query, as its result states. The loops over a multipart body and a part's headers
-- have a turn more than there are bytes, which is enough, as is stated for the body. The loops of a
-- stream's adapters and terminators have turns, of which one more than the values is enough. The
-- matcher's fuel is 65 less the source's `depth`, and the query's is `kMaxNodes`: both are bounds of
-- the code. The 32 bits of the base64 buffer and the range of `stoi` are written out, and so are the
-- 64 bits of `c_anb_match`, whose overflow, which C++ leaves open, wraps around.
--
-- Not modelled: the JavaScript bindings, the network transport and the decoders of compressed
-- bodies, which call libraries throughout; the timers, events and blobs of the web layer,
-- and of the Dart bridge `flat_map` and the timers. Cancellation of a fetch in flight by its stop
-- token is left out, and so are resolving and connecting to a proxy.
pub mod Common
pub mod Fetch
pub mod Web
pub mod Cheerio
pub mod Channel
mod Tests
