-- ===== src/Fetch/Chain/Encoding.antt =====
use quickjs_runtime.Common.{
  Option, [], ap, arith, false, if◌then◌else◌, none, refl, some, true, ℕ, ◌||◌, ◌∙◌, ◌∷◌, ◌≡◌,
}
use quickjs_runtime.Common.Bytes.{Bytes, codes}
use quickjs_runtime.Common.Result.{Result, err, ok}
use quickjs_runtime.Fetch.Chain.{
  accept_encoding, auto_added, decoded, kind_of, request_sent, response_given,
}
use quickjs_runtime.Fetch.HeaderOps.{has_header, single_content_encoding, strip_headers}
use quickjs_runtime.Fetch.HeaderOps.Strip.{listed, values, values-strip_headers}
use quickjs_runtime.Fetch.Types.{
  Body, Error, Handler, Kind, Request, Response, decompress, return, then_do,
}

-- What `AcceptEncodingMiddleware` does to requests and responses.

auto_added-own :
    (req : Request)
    → (has_header req.headers (codes "accept-encoding") || has_header req.headers (codes "range"))
      ≡ true
    → auto_added req ≡ false
unfolding auto_added
auto_added-own req h = ground arith

then_do-return : {W A : Type 0} (m : Result Error A × W) → then_do m return ≡ m
then_do-return (ok a, w) = refl
then_do-return (err e, w) = refl

-- Where the caller's own headers have an `Accept-Encoding` or a `Range`, the compression middleware
-- changes nothing: the rest of the chain gets the request as it is, and its response or exception is
-- passed on as it is, body included.
accept_encoding-own :
    {S W : Type 0} (limit : ℕ) (req : Request) (next : Handler S W) (w : W)
    → (has_header req.headers (codes "accept-encoding") || has_header req.headers (codes "range"))
      ≡ true
    → accept_encoding limit req next w ≡ next req w
unfolding accept_encoding request_sent response_given
accept_encoding-own limit req next w h = rw (auto_added-own req h) (then_do-return (next req w))

response_given-decoded :
    {S : Type 0} (limit : ℕ) (resp : Response S) (src : Body S)
    → resp.body ≡ some src
    → response_given limit true resp ≡ decoded limit resp src
unfolding response_given
response_given-decoded {S} limit resp src b =
    ap (λ (o : Option (Body S)). elim o [ none ↦ resp | some s ↦ decoded limit resp s ]) b

decoded-known :
    {S : Type 0} (limit : ℕ) (resp : Response S) (src : Body S) {enc : Bytes} {kind : Kind}
    → single_content_encoding resp.headers ≡ some enc
    → kind_of enc ≡ some kind
    → decoded limit resp src ≡ record resp {
      headers = strip_headers resp.headers (codes "content-encoding" ∷ codes "content-length" ∷ []);
      body = some (decompress kind limit src);
    }
unfolding decoded
decoded-known limit resp src e k = rw (decoded, e, k) refl

-- Where the middleware added its header and the response names one encoding that it knows, the body
-- is read through the decoder, under the limit, and of the headers just `Content-Encoding` and
-- `Content-Length` are gone: every other name keeps its values in their order.
response_given-decodes :
    {S : Type 0} (limit : ℕ) (resp : Response S) (src : Body S) (name : Bytes) {enc : Bytes}
    {kind : Kind}
    → resp.body ≡ some src
    → single_content_encoding resp.headers ≡ some enc
    → kind_of enc ≡ some kind
    → ((response_given limit true resp).body ≡ some (decompress kind limit src))
      × (values name (response_given limit true resp).headers ≡ (
          if listed name (codes "content-encoding" ∷ codes "content-length" ∷ [])
          then []
          else values name resp.headers))
response_given-decodes {S} limit resp src name b e k =
    let given = response_given-decoded limit resp src b ∙ decoded-known limit resp src e k in
    (
      ap (λ (r : Response S). r.body) given,
      ap (λ (r : Response S). values name r.headers) given
          ∙ values-strip_headers name resp.headers
              (codes "content-encoding" ∷ codes "content-length" ∷ []),
    )
