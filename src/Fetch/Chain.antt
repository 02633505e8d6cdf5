-- ===== src/Fetch/Chain.antt =====
-- include/fetch/middleware.hpp and transport.hpp: the chain of middlewares, `AcceptEncodingMiddleware`
-- and `Socks5ProxyMiddleware`. The stop token is passed on unread, and left out.
pub mod Encoding
use quickjs_runtime.Common.{
  Bool, List, Option, [], if◌then◌else◌, none, not, some, ℕ, ◌&&◌, ◌++◌, ◌||◌, ◌∷◌,
}
use quickjs_runtime.Common.Bytes.{Bytes, bytes_eq, codes}
use quickjs_runtime.Fetch.HeaderOps.{has_header, single_content_encoding, strip_headers}
use quickjs_runtime.Fetch.Types.{
  Body, Handler, Header, Kind, M, Middleware, Request, Response, brotli, decompress, deflate, gzip,
  no_tunnel, return, throw, ◌>>=ᴹ◌,
}
use quickjs_runtime.Web.Stream.{value}

-- `Socks5Proxy` of include/fetch/transport.hpp.
pub record Socks5Proxy : Type 0 where
  pub host : Bytes
  pub port : ℕ
  pub auth : Option (Bytes × Bytes)

-- `Transport`: what it does is not modelled here.
pub record Transport (S W : Type 0) : Type 0 where
  pub request : Handler S W
  pub request_via_socks5 : Request → Socks5Proxy → M W (Response S)

-- The tunnel of a transport that provides none.
abbrev pub no_socks5 : {S W : Type 0} → Request → Socks5Proxy → M W (Response S)
no_socks5 req proxy = throw no_tunnel

unfoldable pub wrap_middleware : {S W : Type 0} → Middleware S W → Handler S W → Handler S W
wrap_middleware mw next req = mw req next

-- The loop goes from the last to the first, so the first registered is outermost.
unfoldable pub make_chain : {S W : Type 0} → List (Middleware S W) → Transport S W → Handler S W
make_chain [] t = t.request
make_chain (mw ∷ mws) t = wrap_middleware mw (make_chain mws t)

abbrev pub accept_encoding_header : Header
accept_encoding_header = record {
  name = codes "Accept-Encoding";
  value = codes "gzip, deflate, br";
}

unfoldable pub kind_of : Bytes → Option Kind
kind_of enc =
    if bytes_eq enc (codes "gzip") || bytes_eq enc (codes "x-gzip")
    then some gzip
    else if bytes_eq enc (codes "deflate")
    then some deflate
    else if bytes_eq enc (codes "br")
    then some brotli
    else none

unfoldable pub auto_added : Request → Bool
auto_added req =
    not (has_header req.headers (codes "accept-encoding"))
    && not (has_header req.headers (codes "range"))

unfoldable pub request_sent : Request → Request
request_sent req =
    if auto_added req
    then record req { headers = req.headers ++ (accept_encoding_header ∷ []) }
    else req

-- The phase behind `co_await next`, where the header was added and there is a body.
unfoldable pub decoded : {S : Type 0} → ℕ → Response S → Body S → Response S
decoded limit resp src = elim (single_content_encoding resp.headers) [
  | none ↦ resp
  | some enc ↦ elim (kind_of enc) [
    | none ↦ resp
    | some kind ↦ record resp {
      headers = strip_headers resp.headers (codes "content-encoding" ∷ codes "content-length" ∷ []);
      body = some (decompress kind limit src);
    }
  ]
]

unfoldable pub response_given : {S : Type 0} → ℕ → Bool → Response S → Response S
response_given limit added resp =
    if added then elim resp.body [ none ↦ resp | some src ↦ decoded limit resp src ] else resp

unfoldable pub accept_encoding : {S W : Type 0} → ℕ → Middleware S W
accept_encoding limit req next =
    next (request_sent req) >>=ᴹ λ resp. return (response_given limit (auto_added req) resp)

unfoldable pub socks5_proxy :
    {S W : Type 0} → Transport S W → (Bytes → Option Socks5Proxy) → Middleware S W
socks5_proxy t route req next = elim (route req.url) [
  | some proxy ↦ t.request_via_socks5 req proxy
  | none ↦ next req
]
