-- ===== src/Fetch/Client.antt =====
-- include/fetch/client.hpp: `Client`.
pub mod Hops
pub mod Outcome
use quickjs_runtime.Common.{
  Bool, List, Option, [], false, if◌then◌else◌, ltb, none, not, some, suc, true, zero, ℕ, ◌&&◌,
  ◌++◌, ◌+◌, ◌==◌, ◌||◌, ◌∷◌,
}
use quickjs_runtime.Common.Bytes.{Bytes, bytes_eq, codes, starts_with}
use quickjs_runtime.Common.Result.{Result, err, ok, ◌>>=◌, ◌>>◌}
use quickjs_runtime.Fetch.Chain.{Transport, accept_encoding, make_chain, wrap_middleware}
use quickjs_runtime.Fetch.DataUrl.{parse_data_url}
use quickjs_runtime.Fetch.HeaderOps.{
  is_redirect_status, location_of, status_requires_get, without_body_headers,
}
use quickjs_runtime.Fetch.Integrity.{Digests, check_integrity, make_integrity}
use quickjs_runtime.Fetch.Ports.{check_url_ports}
use quickjs_runtime.Fetch.Resolve.{resolve_url}
use quickjs_runtime.Fetch.Types.{
  Body, Error, Handler, Headers, M, MaxRedirects, Middleware, Options, Redirect, Request, Response,
  at_most, bad_data_url, blank, bytes, error, follow, integrity, manual, negative, redirect_refused,
  throw, too_many_redirects, ◌>>=ᴹ◌,
}
use quickjs_runtime.Fetch.Urls.{Urls}

pub record Client (S W : Type 0) : Type 0 where
  pub opt : Options
  pub transport_ : Transport S W
  pub mws : List (Middleware S W)

unfoldable pub use_middleware : {S W : Type 0} → Client S W → Middleware S W → Client S W
use_middleware c mw = record c { mws = c.mws ++ (mw ∷ []) }

-- The chain of one hop.
unfoldable pub hop_handler : {S W : Type 0} → Client S W → Handler S W
hop_handler c =
    let h = make_chain c.mws c.transport_ in
    if c.opt.auto_decompress
    then wrap_middleware (accept_encoding c.opt.max_decompressed_bytes) h
    else h

-- A check that throws, in front of a coroutine.
abbrev pub checked : {W A : Type 0} → Result Error (Unit {0}) → M W A → M W A
checked (ok _) m w = m w
checked (err e) m w = (err e, w)

unfoldable pub fetch_once : {S W : Type 0} → Urls → Client S W → Handler S W
fetch_once b c req = checked (check_url_ports b req.url) (hop_handler c req)

-- `data:` URLs are answered here.
unfoldable pub data_response : {S : Type 0} → Request → Result Error (Response S)
data_response req = elim (parse_data_url req.url) [
  | none ↦ err bad_data_url
  | some (mime, text) ↦
      let is_head = bytes_eq req.method (codes "HEAD") in
      let content = if is_head then [] else text in
      ok (record {
        status = 200;
        reason = codes "OK";
        headers = record { name = codes "Content-Type"; value = mime } ∷ [];
        url = req.url;
        redirected = false;
        body = if not (bytes_eq content []) || not is_head then some (bytes content 0) else none;
      })
]

-- The variables of the redirect loop.
pub record Hop : Type 0 where
  pub method : Bytes
  pub url : Bytes
  pub headers : Headers
  pub body : Bytes

-- `rq`: integrity and redirect mode stay at their defaults.
unfoldable pub hop_request : Hop → Request
hop_request s = record {
  method = s.method;
  url = s.url;
  headers = s.headers;
  body = s.body;
  integrity = [];
  redirect = follow;
}

-- What the loop does with a response: it returns or throws, or goes on.
pub data Next (S : Type 0) : Type 0 where
  settled : Result Error (Response S) → Next S
  again : Hop → Next S

-- The variables for the next hop, at the URL that was resolved.
unfoldable pub next_hop : Hop → ℕ → Bytes → Hop
next_hop s status url =
    if status_requires_get status s.method
    then record {
      method = codes "GET";
      url = url;
      headers = without_body_headers s.headers;
      body = [];
    }
    else record s { url = url }

unfoldable pub follow_redirect : {S : Type 0} → Urls → Hop → Bool → Response S → Next S
follow_redirect b s is_last resp =
    if is_last
    then settled (err too_many_redirects)
    else elim (resolve_url b (location_of resp.headers) s.url) [
      | err e ↦ settled (err e)
      | ok url ↦ again (next_hop s resp.status url)
    ]

-- The integrity metadata, on the response that is returned. A body is checked when it is read.
unfoldable pub guard_body :
    {S : Type 0} → Digests → Bytes → Hop → Response S → Option (Body S) → Result Error (Response S)
guard_body d expected s resp (some src) = do
  (algo, digest_b64) ← make_integrity expected
  ok (record resp { body = some (integrity algo digest_b64 src) })
guard_body d expected s resp none = do check_integrity d expected resp.status s.method []; ok resp

unfoldable pub with_integrity :
    {S : Type 0} → Digests → Bytes → Hop → Response S → Result Error (Response S)
with_integrity d expected s resp =
    if bytes_eq expected [] then ok resp else guard_body d expected s resp resp.body

unfoldable pub final_response :
    {S : Type 0} → Digests → Request → Hop → ℕ → Response S → Result Error (Response S)
final_response d req s hop resp = do
  r ← with_integrity d req.integrity s resp
  ok (record r { url = s.url; redirected = ltb 0 hop })

unfoldable pub is_redirect_mode : Redirect → Redirect → Bool
is_redirect_mode follow follow = true
is_redirect_mode error error = true
is_redirect_mode manual manual = true
is_redirect_mode _ _ = false

-- The tests on the response; `mode` is `req.redirect`.
unfoldable pub decide_next :
    {S : Type 0} → Urls → Digests → Request → Redirect → Hop → ℕ → Bool → Response S → Next S
decide_next b d req mode s hop is_last resp =
    if is_redirect_mode mode error && is_redirect_status resp.status
    then settled (err redirect_refused)
    else if is_redirect_mode mode manual && is_redirect_status resp.status
    then settled (ok blank)
    else if is_redirect_mode mode follow
        && is_redirect_status resp.status
        && not (bytes_eq (location_of resp.headers) [])
    then follow_redirect b s is_last resp
    else settled (final_response d req s hop resp)

unfoldable pub after_response :
    {S : Type 0} → Urls → Digests → Request → Hop → ℕ → Bool → Response S → Next S
after_response b d req s hop is_last resp = decide_next b d req req.redirect s hop is_last resp

-- The end of a round, `more` being the rounds that are left.
unfoldable pub conclude : {S W : Type 0} → (Hop → M W (Response S)) → Next S → M W (Response S)
conclude more (settled r) w = (r, w)
conclude more (again s) w = more s w

-- The loop, with `rounds` hops left before `hop` passes `kMaxRedirects`.
unfoldable pub redirect_loop :
    {S W : Type 0} → Urls → Digests → Handler S W → Request → ℕ → ℕ → Hop → M W (Response S)
redirect_loop b d once req zero hop s = throw too_many_redirects
redirect_loop b d once req (suc rounds) hop s = checked (check_url_ports b s.url) (
    once (hop_request s) >>=ᴹ λ resp.
    conclude (redirect_loop b d once req rounds (hop + 1))
      (after_response b d req s hop (rounds == 0) resp))

abbrev pub rounds_of : MaxRedirects → ℕ
rounds_of (at_most n) = suc n
rounds_of negative = 0

unfoldable pub first_hop : Request → Hop
first_hop req = record {
  method = req.method;
  url = req.url;
  headers = req.headers;
  body = req.body;
}

unfoldable pub fetch : {S W : Type 0} → Urls → Digests → Client S W → Request → M W (Response S)
fetch b d c req =
    if starts_with (codes "data:") req.url
    then (λ w. (data_response req, w))
    else redirect_loop b d (fetch_once b c) req (rounds_of c.opt.max_redirects) 0 (first_hop req)
