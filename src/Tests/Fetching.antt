-- ===== src/Tests/Fetching.antt =====
use quickjs_runtime.Common.{
  [], arith, false, if◌then◌else◌, length, none, refl, some, suc, true, zero, ℕ, ◌%◌, ◌++◌, ◌||◌,
  ◌∷◌, ◌≡◌,
}
use quickjs_runtime.Common.Bytes.{Bytes, bytes_eq, codes, contains, find, starts_with, to_lower}
use quickjs_runtime.Common.Result.{err, ok}
use quickjs_runtime.Fetch.Chain.{
  Transport, accept_encoding, auto_added, decoded, kind_of, make_chain, no_socks5, request_sent,
  response_given, wrap_middleware,
}
use quickjs_runtime.Fetch.Client.{
  Client, after_response, conclude, decide_next, fetch, fetch_once, final_response, first_hop,
  guard_body, hop_handler, hop_request, is_redirect_mode, redirect_loop, with_integrity,
}
use quickjs_runtime.Fetch.Client.Hops.{IsAllowed, Trace, fetch-Trace, plain_client}
use quickjs_runtime.Fetch.Client.Outcome.{IsGood, fetch-IsGood}
use quickjs_runtime.Fetch.HeaderOps.{
  encoding_of, fold, fold_encoding, has_header, header_name_eq, is_redirect_status, same_folded,
  single_content_encoding, strip_headers,
}
use quickjs_runtime.Fetch.HeaderOps.Names.{IsPlain, is_plain}
use quickjs_runtime.Fetch.HeaderOps.Strip.{listed, values, values-strip_headers}
use quickjs_runtime.Fetch.Integrity.{Digests, make_integrity, sha_digest}
use quickjs_runtime.Fetch.Integrity.Source.{
  IntegritySource, Reader, block, ended, read_all, read_all-verdict, read_guarded, verdict,
}
use quickjs_runtime.Fetch.Integrity.Verdict.{read_guarded-two_digests}
use quickjs_runtime.Fetch.Ports.{
  all_digits, blocked_port_of, blocked_text, blocked_text-decimal, check_url_ports, decimal,
  is_blocked_port,
}
use quickjs_runtime.Fetch.Socks5.{Addresses, build_connect, negotiate, socks5_connect}
use quickjs_runtime.Fetch.Socks5.Handshake.{
  Negotiated, negotiate-Negotiated, opening, socks5_connect-succeeds, v4,
}
use quickjs_runtime.Fetch.Types.{
  Options, Request, Response, at_most, follow, gzip, integrity, integrity_mismatch, raw,
}
use quickjs_runtime.Fetch.Urls.{Urls}

-- Examples for the modules under Fetch.

-- URLs that are plain texts, without schemes and ports.
abbrev plain_urls : Urls
plain_urls = record {
  Url = Bytes;
  parse_uri_reference = λ s. some s;
  has_scheme = λ u. false;
  scheme = λ u. [];
  set_scheme = λ s u. u;
  encoded_host = λ u. [];
  set_encoded_host = λ s u. u;
  has_port = λ u. false;
  port = λ u. [];
  remove_port = λ u. u;
  resolve = λ base u. some u;
  buffer = λ u. u;
}

-- A digest of one byte.
abbrev short_digests : Digests
short_digests = record { sha256 = λ s. length s % 256 ∷ []; sha384 = λ s. []; sha512 = λ s. [] }

abbrev moved : Response (Unit {0})
moved = record {
  status = 303;
  reason = [];
  headers = record { name = codes "Location"; value = codes "http://b/" } ∷ [];
  url = [];
  redirected = false;
  body = none;
}

abbrev found : Response (Unit {0})
found = record {
  status = 200;
  reason = [];
  headers = [];
  url = [];
  redirected = false;
  body = some (raw tt);
}

-- A redirect at the first request, a response at the second.
abbrev answer : ℕ → Response (Unit {0})
answer zero = moved
answer (suc n) = found

abbrev server : Transport (Unit {0}) ℕ
server = record { request = λ req n. (ok (answer n), suc n); request_via_socks5 = no_socks5 }

abbrev options : Options
options = record { auto_decompress = true; max_redirects = at_most 3; max_decompressed_bytes = 100 }

abbrev client : Client (Unit {0}) ℕ
client = record { opt = options; transport_ = server; mws = [] }

abbrev post : Request
post = record {
  method = codes "POST";
  url = codes "http://a/";
  headers = record { name = codes "Content-Type"; value = codes "text/plain" } ∷ [];
  body = codes "x";
  integrity = codes "sha256-AA==";
  redirect = follow;
}

fetch-Trace_example :
    Trace
      (IsAllowed plain_urls post)
      4
      []
      (fetch plain_urls short_digests (plain_client server options) post (0, [])).1.1
fetch-Trace_example = fetch-Trace plain_urls short_digests server options post 0

abbrev get_found : Request
get_found = record post { url = codes "http://b/" }

fetch-found :
    (fetch plain_urls short_digests client get_found 1).0
    ≡ ok (record found {
      url = codes "http://b/";
      body = some (integrity (codes "sha256") (codes "AA==") (raw tt));
    })
unfolding fetch redirect_loop fetch_once hop_handler make_chain wrap_middleware accept_encoding
    request_sent auto_added has_header header_name_eq same_folded fold check_url_ports
    blocked_port_of response_given decoded single_content_encoding conclude after_response
    decide_next final_response with_integrity guard_body make_integrity find bytes_eq starts_with
    is_redirect_mode is_redirect_status first_hop hop_request
fetch-found = refl

fetch-IsGood_example : IsGood get_found (record found {
  url = codes "http://b/";
  body = some (integrity (codes "sha256") (codes "AA==") (raw tt));
})
fetch-IsGood_example =
    fetch-IsGood plain_urls short_digests client get_found 1 (unfold starts_with in refl)
      fetch-found

-- A source of two blocks.
abbrev two_blocks : Reader ℕ
two_blocks zero = (ok (some (codes "ab")), 1)
two_blocks (suc zero) = (ok (some (codes "c")), 2)
two_blocks (suc (suc n)) = (ok none, 2)

abbrev guarded_source : Bytes → IntegritySource ℕ
guarded_source digest_b64 = record {
  upstream = 0;
  algo = codes "sha256";
  digest_b64 = digest_b64;
  seen = [];
}

read_all-verdict_example :
    read_all short_digests two_blocks 3 (guarded_source (codes "Aw")) []
    ≡ some (verdict short_digests (codes "sha256") (codes "Aw") (codes "abc") (codes "abc"))
read_all-verdict_example =
    read_all-verdict short_digests two_blocks (guarded_source (codes "Aw"))
      {bs = codes "ab" ∷ codes "c" ∷ []} [] 3 (block refl (block refl (ended refl))) (omega arith)

-- The first digest is the one that the text has.
read_guarded-two_digests_example :
    read_guarded short_digests two_blocks 3
      (codes "sha256-Aw sha512-BB")
      (guarded_source []).upstream
    ≡ some (err integrity_mismatch)
read_guarded-two_digests_example =
    read_guarded-two_digests short_digests two_blocks (guarded_source []).upstream
      {bs = codes "ab" ∷ codes "c" ∷ []} 3 (codes "sha256") (codes "Aw") (codes "sha512-BB")
      (unfold contains in refl) (unfold bytes_eq in refl)
      (unfold sha_digest in unfold bytes_eq in ((omega arith), tt))
      (block refl (block refl (ended refl))) (omega arith)

blocked_text-decimal_example :
    blocked_text (codes "0025")
    ≡ (if is_blocked_port (decimal 0 (codes "0025")) then some (decimal 0 (codes "0025")) else none)
blocked_text-decimal_example =
    blocked_text-decimal (codes "0025") (λ e. cc e) (unfold all_digits in refl)

values-strip_headers_example :
    values (codes "A") (
      strip_headers
        (record { name = codes "a"; value = codes "1" }
          ∷ record { name = codes "b"; value = codes "2" }
          ∷ [])
        (codes "b" ∷ []))
    ≡ (if listed (codes "A") (codes "b" ∷ [])
        then []
        else values (codes "A") (
            record { name = codes "a"; value = codes "1" }
            ∷ record { name = codes "b"; value = codes "2" }
            ∷ []))
values-strip_headers_example =
    values-strip_headers (codes "A")
      (record { name = codes "a"; value = codes "1" }
        ∷ record { name = codes "b"; value = codes "2" }
        ∷ [])
      (codes "b" ∷ [])

IsPlain-host : IsPlain (codes "Host")
unfolding is_plain
IsPlain-host =
    ((omega arith, refl), ((omega arith, refl), ((omega arith, refl), ((omega arith, refl), tt))))

IsPlain-host_upper : IsPlain (codes "hOST")
unfolding is_plain
IsPlain-host_upper =
    ((omega arith, refl), ((omega arith, refl), ((omega arith, refl), ((omega arith, refl), tt))))

abbrev names_only : Addresses
names_only = record { make_address_v4 = λ s. none; make_address_v6 = λ s. none }

negotiate-Negotiated_example : Negotiated (some (codes "u", codes "p")) (5 ∷ 2 ∷ 1 ∷ 0 ∷ 7 ∷ []) (
    negotiate
      (record { host = codes "h"; port = 1080; auth = some (codes "u", codes "p") })
      (record { incoming = 5 ∷ 2 ∷ 1 ∷ 0 ∷ 7 ∷ []; sent = [] }))
negotiate-Negotiated_example =
    negotiate-Negotiated (codes "h") 1080 (some (codes "u", codes "p")) (5 ∷ 2 ∷ 1 ∷ 0 ∷ 7 ∷ [])

socks5_connect-succeeds_example :
    socks5_connect names_only
      (record { host = codes "h"; port = 1080; auth = none })
      (codes "example.org")
      443
      (record { incoming = 5 ∷ 0 ∷ 5 ∷ 0 ∷ 0 ∷ 1 ∷ 127 ∷ 0 ∷ 0 ∷ 1 ∷ 4 ∷ 56 ∷ 9 ∷ []; sent = [] })
    ≡ (
      ok tt,
      record {
        incoming = 9 ∷ [];
        sent = opening none ++ (build_connect names_only (codes "example.org") 443 ∷ []);
      },
    )
socks5_connect-succeeds_example =
    socks5_connect-succeeds names_only (codes "h") 1080 none (codes "example.org") 443
      (v4 (127 ∷ 0 ∷ 0 ∷ 1 ∷ []) 4 56) (9 ∷ []) refl

abbrev ranged : Request
ranged = record post { headers = record { name = codes "RANGE"; value = codes "bytes=0-1" } ∷ [] }

ranged_own :
    (has_header ranged.headers (codes "accept-encoding")
      || has_header ranged.headers (codes "range"))
    ≡ true
unfolding has_header header_name_eq same_folded fold
ranged_own = refl

abbrev zipped : Response (Unit {0})
zipped = record found {
  headers =
      record { name = codes "Content-Encoding"; value = codes "GZIP" }
      ∷ record { name = codes "ETag"; value = codes "e" }
      ∷ [];
}

zipped_gzip : single_content_encoding zipped.headers ≡ some (codes "gzip")
unfolding single_content_encoding encoding_of fold_encoding header_name_eq same_folded fold contains
    to_lower bytes_eq
zipped_gzip = refl

gzip_known : kind_of (codes "gzip") ≡ some gzip
unfolding kind_of bytes_eq
gzip_known = refl
