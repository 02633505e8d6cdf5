-- ===== src/Fetch/Client/Hops.antt =====
-- The requests that `fetch` makes of the transport: how many, where to, and with what.
use mathlib.Core.List.{append_assoc}
use quickjs_runtime.Common.{
  Bool, Bool-cases, List, [], ap, arith, false, if◌then◌else◌, inl, inr, length, length-append,
  none, refl, suc, sym, true, zero, ℕ, ◌++◌, ◌+◌, ◌==◌, ◌∙◌, ◌∷◌, ◌≡◌, ◌≤◌, ◌⊎◌,
}
use quickjs_runtime.Common.Bytes.{All, Bytes, bytes_eq, codes, starts_with}
use quickjs_runtime.Common.Result.{Result, Result-cases, err, ok}
use quickjs_runtime.Fetch.Chain.{
  Transport, accept_encoding, accept_encoding_header, auto_added, make_chain, request_sent,
  response_given, wrap_middleware,
}
use quickjs_runtime.Fetch.Client.{
  Client, Hop, Next, after_response, again, conclude, decide_next, fetch, fetch_once, first_hop,
  follow_redirect, hop_handler, hop_request, next_hop, redirect_loop, rounds_of, settled,
}
use quickjs_runtime.Fetch.HeaderOps.{location_of, status_requires_get, without_body_headers}
use quickjs_runtime.Fetch.Integrity.{Digests}
use quickjs_runtime.Fetch.Ports.{blocked_port_of, check_url_ports_cases}
use quickjs_runtime.Fetch.Resolve.{resolve_url}
use quickjs_runtime.Fetch.Types.{
  Error, Handler, Headers, M, MaxRedirects, Options, Request, Response, blocked_port, return,
  then_do,
}
use quickjs_runtime.Fetch.Urls.{Urls}

-- A transport that keeps a log of the requests it was given, newest first.
pub recording : {S W : Type 0} → Transport S W → Transport S (W × List Request)
recording t = record {
  request = λ req. λ (w, log). let (r, w') = t.request req w in (r, (w', req ∷ log));
  request_via_socks5 = λ req proxy.
      λ (w, log). let (r, w') = t.request_via_socks5 req proxy w in (r, (w', req ∷ log));
}

-- `log'` adds at most `n` requests to `log`, and `P` holds of each.
pub record Trace (P : Request → Type 0) (n : ℕ) (log log' : List Request) : Type 0 where
  pub made : List Request
  pub splits : log' ≡ made ++ log
  pub few : length made ≤ n
  pub all : All P made

All-append : (P : Request → Type 0) (xs ys : List Request) → All P xs → All P ys → All P (xs ++ ys)
All-append P [] ys h k = k
All-append P (x ∷ xs) ys h k = (h.0, All-append P xs ys h.1 k)

Trace-none : {P : Request → Type 0} (n : ℕ) (log : List Request) → Trace P n log log
Trace-none n log = record { made = []; splits = refl; few = omega arith; all = tt }

Trace-one :
    {P : Request → Type 0} (n : ℕ) (log : List Request) (r : Request)
    → P r
    → Trace P (suc n) log (r ∷ log)
Trace-one n log r h = record { made = r ∷ []; splits = refl; few = omega arith; all = (h, tt) }

Trace-cons :
    {P : Request → Type 0} (n : ℕ) (log log' : List Request) (r : Request)
    → P r
    → Trace P n (r ∷ log) log'
    → Trace P (suc n) log log'
Trace-cons {P} n log log' r h t = record {
  made = t.made ++ (r ∷ []);
  splits = t.splits ∙ sym (append_assoc t.made (r ∷ []) log);
  few = omega (arith, length-append t.made (r ∷ []), t.few);
  all = All-append P t.made (r ∷ []) t.all (h, tt);
}

-- The headers of a hop, as they are or with the one that asks for compression.
abbrev pub IsSentWith : Headers → Headers → Type 0
IsSentWith hs sent = (sent ≡ hs) ⊎ (sent ≡ hs ++ (accept_encoding_header ∷ []))

-- A request made for `req`: it carries what `req` does, or has become a GET without a body and
-- without the headers that describe one.
abbrev pub Carries : Request → Request → Type 0
Carries req r =
    ((r.method ≡ req.method) × (r.body ≡ req.body) × IsSentWith req.headers r.headers)
    ⊎ ((r.method ≡ codes "GET")
        × (r.body ≡ [])
        × IsSentWith (without_body_headers req.headers) r.headers)

pub record IsAllowed (b : Urls) (req r : Request) : Type 0 where
  pub port_open : blocked_port_of b r.url ≡ none
  pub carries : Carries req r

-- The same of the variables of the loop.
abbrev HopCarries : Request → Hop → Type 0
HopCarries req s =
    ((s.method ≡ req.method) × (s.body ≡ req.body) × (s.headers ≡ req.headers))
    ⊎ ((s.method ≡ codes "GET") × (s.body ≡ []) × (s.headers ≡ without_body_headers req.headers))

get_requires_none : (status : ℕ) → status_requires_get status (codes "GET") ≡ false
unfolding status_requires_get bytes_eq
get_requires_none status = ground arith

next_hop-HopCarries :
    (req : Request) (s : Hop) (status : ℕ) (url : Bytes)
    → HopCarries req s
    → HopCarries req (next_hop s status url)
unfolding next_hop
next_hop-HopCarries req s status url (inl (m, t, h)) =
    elim (Bool-cases (status_requires_get status s.method)) [
      | inl e ↦ rw e (inr (refl, refl, ap without_body_headers h))
      | inr e ↦ rw e (inl (m, t, h))
    ]
next_hop-HopCarries req s status url (inr (m, t, h)) =
    let e : status_requires_get status s.method ≡ false = rw m (get_requires_none status) in
    rw e (inr (m, t, h))

-- The loop goes on only from a round that is not the last, by way of `next_hop`.
after_response-again :
    {S : Type 0} (b : Urls) (d : Digests) (req : Request) (s : Hop) (hop : ℕ) (is_last : Bool)
    (resp : Response S) {s' : Hop}
    → after_response b d req s hop is_last resp ≡ again s'
    → (url : Bytes) × (s' ≡ next_hop s resp.status url)
unfolding after_response decide_next follow_redirect
after_response-again b d req s hop is_last resp e =
    ground (arith, Result-cases (resolve_url b (location_of resp.headers) s.url))

-- One hop throws before it makes a request, or makes the one request `g req`.
data Logs {S W : Type 0} (g : Request → Request) (req : Request) (log : List Request)
    (out : Result Error (Response S) × (W × List Request)) : Type 0 where
  quiet : (e : Error) (w' : W) → out ≡ (err e, (w', log)) → Logs g req log out
  sends :
      (r : Result Error (Response S)) (w' : W) → out ≡ (r, (w', g req ∷ log)) → Logs g req log out

module _ {S W : Type 0} (b : Urls) (d : Digests) (req : Request)
    (once : Handler S (W × List Request)) (g : Request → Request)
    (logs : (r : Request) (w : W) (log : List Request) → Logs g r log (once r (w, log)))
    (allowed : (s : Hop)
      → blocked_port_of b s.url ≡ none
      → HopCarries req s
      → IsAllowed b req (g (hop_request s))) where
  abbrev P : Request → Type 0
  P = IsAllowed b req

  abbrev loop : ℕ → ℕ → Hop → M (W × List Request) (Response S)
  loop = redirect_loop b d once req

  -- A round behind the response, given the rest of the loop.
  conclude-Trace :
      (rounds hop : ℕ) (s : Hop) (log : List Request) (w' : W) (r : Request) (n : Next S)
      → P r
      → ((s' : Hop) → n ≡ again s' → HopCarries req s')
      → ((s' : Hop)
          → HopCarries req s'
          → Trace P rounds (r ∷ log) (loop rounds (hop + 1) s' (w', r ∷ log)).1.1)
      → Trace P (suc rounds) log (conclude (loop rounds (hop + 1)) n (w', r ∷ log)).1.1
  unfolding conclude
  conclude-Trace rounds hop s log w' r (settled x) p inv ih = Trace-one rounds log r p
  conclude-Trace rounds hop s log w' r (again s') p inv ih =
      Trace-cons rounds log _ r p (ih s' (inv s' refl))

  hop-Trace :
      (rounds hop : ℕ) (s : Hop) (log : List Request)
      (out : Result Error (Response S) × (W × List Request))
      → blocked_port_of b s.url ≡ none
      → HopCarries req s
      → Logs g (hop_request s) log out
      → ((s' : Hop) (w' : W) (log' : List Request)
          → HopCarries req s'
          → Trace P rounds log' (loop rounds (hop + 1) s' (w', log')).1.1)
      → Trace P
          (suc rounds)
          log
          (then_do out λ resp.
            conclude (loop rounds (hop + 1)) (after_response b d req s hop (rounds == 0) resp)).1.1
  hop-Trace rounds hop s log out p inv (quiet e w' q) ih = rw q (Trace-none (suc rounds) log)
  hop-Trace rounds hop s log out p inv (sends (err e) w' q) ih =
      rw q (Trace-one rounds log _ (allowed s p inv))
  hop-Trace rounds hop s log out p inv (sends (ok resp) w' q) ih = rw q (
      conclude-Trace rounds hop s log w' (g (hop_request s)) _ (allowed s p inv)
        (λ s' e.
          let (url, t) = after_response-again b d req s hop (rounds == 0) resp e in
          rw t (next_hop-HopCarries req s resp.status url inv))
        (λ s' i. ih s' w' _ i))

  loop-Trace :
      (rounds hop : ℕ) (s : Hop) (w : W) (log : List Request)
      → HopCarries req s
      → Trace P rounds log (loop rounds hop s (w, log)).1.1
  unfolding redirect_loop
  loop-Trace zero hop s w log inv = Trace-none 0 log
  loop-Trace (suc rounds) hop s w log inv = elim (check_url_ports_cases b s.url) [
    | inr (p, _, e) ↦ rw e (Trace-none (suc rounds) log)
    | inl (open_port, e) ↦ rw e (
        hop-Trace rounds hop s log (once (hop_request s) (w, log)) open_port inv
          (logs (hop_request s) w log) (λ s' w' log' i. loop-Trace rounds (hop + 1) s' w' log' i))
  ]

-- A client without middlewares of the user's, over a transport that records.
abbrev pub plain_client : {S W : Type 0} → Transport S W → Options → Client S (W × List Request)
plain_client t opt = record { opt = opt; transport_ = recording t; mws = [] }

abbrev request_of : Options → Request → Request
request_of opt r = if opt.auto_decompress then request_sent r else r

module _ {S W : Type 0} (t : Transport S W) (r : Request) (w : W) (log : List Request) where
  abbrev options : Bool → MaxRedirects → ℕ → Options
  options auto max limit = record {
    auto_decompress = auto;
    max_redirects = max;
    max_decompressed_bytes = limit;
  }

  sends_compressed :
      (max : MaxRedirects) (limit : ℕ) (out : Result Error (Response S) × W)
      → Logs {S = S} {W = W} (request_of (options true max limit)) r log (
          then_do {W = W × List Request}
            (out.0, (out.1, request_sent r ∷ log))
            λ resp. return (response_given limit (auto_added r) resp))
  sends_compressed max limit (err x, w') = sends (err x) w' refl
  sends_compressed max limit (ok resp, w') =
      sends (ok (response_given limit (auto_added r) resp)) w' refl

  sends_for :
      (auto : Bool) (max : MaxRedirects) (limit : ℕ)
      → Logs
          (request_of (options auto max limit))
          r
          log
          (hop_handler (plain_client t (options auto max limit)) r (w, log))
  unfolding hop_handler make_chain wrap_middleware accept_encoding recording
  sends_for false max limit = sends (t.request r w).0 (t.request r w).1 refl
  sends_for true max limit = sends_compressed max limit (t.request (request_sent r) w)

  sends_always :
      (opt : Options) → Logs (request_of opt) r log (hop_handler (plain_client t opt) r (w, log))
  sends_always opt = sends_for opt.auto_decompress opt.max_redirects opt.max_decompressed_bytes

fetch_once-Logs :
    {S W : Type 0} (b : Urls) (t : Transport S W) (opt : Options) (r : Request) (w : W)
    (log : List Request)
    → Logs (request_of opt) r log (fetch_once b (plain_client t opt) r (w, log))
unfolding fetch_once
fetch_once-Logs b t opt r w log = elim (check_url_ports_cases b r.url) [
  | inr (p, _, e) ↦ rw e (quiet (blocked_port p) w refl)
  | inl (_, e) ↦ rw e (sends_always t r w log opt)
]

request_of-IsAllowed :
    (b : Urls) (opt : Options) (req : Request) (s : Hop)
    → blocked_port_of b s.url ≡ none
    → HopCarries req s
    → IsAllowed b req (request_of opt (hop_request s))
unfolding request_sent hop_request
request_of-IsAllowed b opt req s p inv = record {
  port_open = ground (arith, p);
  carries = ground arith;
}

-- Without middlewares of the user's, one fetch asks the transport at most `max_redirects` + 1
-- times (never, if that is negative). Every request goes to a URL with no blocked port, also
-- behind a redirect, and carries the caller's method, body and headers, or is a GET without body
-- and body headers; the header that asks for compression may stand behind the others.
pub fetch-Trace :
    {S W : Type 0} (b : Urls) (d : Digests) (t : Transport S W) (opt : Options) (req : Request)
    (w : W)
    → Trace
        (IsAllowed b req)
        (rounds_of opt.max_redirects)
        []
        (fetch b d (plain_client t opt) req (w, [])).1.1
unfolding fetch
fetch-Trace b d t opt req w = elim (Bool-cases (starts_with (codes "data:") req.url)) [
  | inl e ↦ rw e (Trace-none (rounds_of opt.max_redirects) [])
  | inr e ↦ rw e (
      loop-Trace b d req (fetch_once b (plain_client t opt)) (request_of opt)
        (fetch_once-Logs b t opt) (request_of-IsAllowed b opt req) (rounds_of opt.max_redirects) 0
        (first_hop req) w [] (unfold first_hop in inl (refl, refl, refl)))
]
