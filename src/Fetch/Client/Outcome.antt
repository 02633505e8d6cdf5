-- ===== src/Fetch/Client/Outcome.antt =====
-- The response that `fetch` returns.
use mathlib.Core.Path.{subst}
use quickjs_runtime.Common.{
  Bool, Bool-cases, Option, [], arith, false, inl, inr, ltb, none, refl, some, suc, sym, zero, ℕ,
  ◌+◌, ◌==◌, ◌≡◌, ◌≢◌, ◌⊎◌,
}
use quickjs_runtime.Common.Bytes.{Bytes, bytes_eq, bytes_eq_iff, codes, starts_with}
use quickjs_runtime.Common.Result.{Result, Result-cases, err, ok, ◌>>=◌}
use quickjs_runtime.Fetch.Client.{
  Client, Hop, Next, after_response, again, conclude, decide_next, fetch, fetch_once,
  final_response, first_hop, follow_redirect, guard_body, hop_request, is_redirect_mode,
  redirect_loop, rounds_of, settled, with_integrity,
}
use quickjs_runtime.Fetch.HeaderOps.{is_redirect_status, location_of}
use quickjs_runtime.Fetch.Integrity.{Digests, check_integrity, make_integrity}
use quickjs_runtime.Fetch.Ports.{check_url_ports_cases}
use quickjs_runtime.Fetch.Resolve.{resolve_url}
use quickjs_runtime.Fetch.Types.{
  Body, Error, Handler, M, Redirect, Request, Response, blank, error, follow, integrity, manual,
  then_do,
}
use quickjs_runtime.Fetch.Urls.{Urls}

-- A response is final under a redirect mode: it is no redirect, or a redirect that is followed
-- has no Location.
abbrev pub IsFinal : {S : Type 0} → Redirect → Response S → Type 0
IsFinal follow r = (is_redirect_status r.status ≡ false) ⊎ (location_of r.headers ≡ [])
IsFinal error r = is_redirect_status r.status ≡ false
IsFinal manual r = is_redirect_status r.status ≡ false

-- With integrity metadata the body is none, or is checked when it is read, against the metadata's
-- algorithm and digest.
abbrev pub IsGuarded : {S : Type 0} → Bytes → Option (Body S) → Type 0
IsGuarded expected none = Unit {0}
IsGuarded expected (some (integrity algo digest_b64 src)) =
    make_integrity expected ≡ ok (algo, digest_b64)
IsGuarded expected (some _) = ⊥

pub record IsGood {S : Type 0} (req : Request) (r : Response S) : Type 0 where
  pub final : IsFinal req.redirect r
  pub guarded : req.integrity ≢ [] → IsGuarded req.integrity r.body

blank-IsFinal : (S : Type 0) (m : Redirect) → IsFinal {S = S} m blank
unfolding is_redirect_status location_of
blank-IsFinal S follow = inr refl
blank-IsFinal S error = refl
blank-IsFinal S manual = refl

abbrev Good : {S : Type 0} → Request → Result Error (Response S) → Type 0
Good req (ok r) = IsGood req r
Good req (err e) = Unit {0}

-- A response whose metadata was handled, and what it shares with the one below it.
record IsHandled {S : Type 0} (expected : Bytes) (resp r : Response S) : Type 0 where
  same_status : r.status ≡ resp.status
  same_headers : r.headers ≡ resp.headers
  guarded : expected ≢ [] → IsGuarded expected r.body

abbrev Handled : {S : Type 0} → Bytes → Response S → Result Error (Response S) → Type 0
Handled expected resp (ok r) = IsHandled expected resp r
Handled expected resp (err e) = Unit {0}

guard_body-Handled :
    {S : Type 0} (d : Digests) (expected : Bytes) (s : Hop) (resp : Response S)
    (src : Option (Body S))
    → resp.body ≡ src
    → Handled expected resp (guard_body d expected s resp src)
unfolding guard_body
guard_body-Handled {S} d expected s resp (some src) q = made (make_integrity expected) refl
  where
    made :
        (m : Result Error (Bytes × Bytes))
        → make_integrity expected ≡ m
        → Handled expected resp
            (m >>= λ p. ok (record resp { body = some (integrity p.0 p.1 src) }))
    made (err e) q = tt
    made (ok (algo, digest_b64)) q = record {
      same_status = refl;
      same_headers = refl;
      guarded = λ _. q;
    }
guard_body-Handled {S} d expected s resp none q =
    judged (check_integrity d expected resp.status s.method [])
  where
    judged : (m : Result Error (Unit {0})) → Handled expected resp (m >>= λ _. ok resp)
    judged (err e) = tt
    judged (ok u) = record {
      same_status = refl;
      same_headers = refl;
      guarded = λ _. none_guarded resp.body q;
    }
      where
        none_guarded : (o : Option (Body S)) → o ≡ none → IsGuarded expected o
        none_guarded none e = tt
        none_guarded (some x) e = cc

with_integrity-Handled :
    {S : Type 0} (d : Digests) (expected : Bytes) (s : Hop) (resp : Response S)
    → Handled expected resp (with_integrity d expected s resp)
unfolding with_integrity
with_integrity-Handled d expected s resp = elim (Bool-cases (bytes_eq expected [])) [
  | inl e ↦ rw e (record {
    same_status = refl;
    same_headers = refl;
    guarded = λ ne. absurd (ne ((bytes_eq_iff expected []).0 e));
  })
  | inr e ↦ rw e (guard_body-Handled d expected s resp resp.body refl)
]

IsFinal-keep :
    {S : Type 0} (m : Redirect) (resp r : Response S) (u : Bytes) (f : Bool)
    → r.status ≡ resp.status
    → r.headers ≡ resp.headers
    → IsFinal m resp
    → IsFinal m (record r { url = u; redirected = f })
IsFinal-keep follow resp r u f s h (inl e) = inl (rw s e)
IsFinal-keep follow resp r u f s h (inr e) = inr (rw h e)
IsFinal-keep error resp r u f s h e = rw s e
IsFinal-keep manual resp r u f s h e = rw s e

final_response-Good :
    {S : Type 0} (d : Digests) (req : Request) (s : Hop) (hop : ℕ) (resp : Response S)
    → IsFinal req.redirect resp
    → Good req (final_response d req s hop resp)
unfolding final_response
final_response-Good {S} d req s hop resp f =
    go (with_integrity d req.integrity s resp) (with_integrity-Handled d req.integrity s resp)
  where
    go :
        (m : Result Error (Response S))
        → Handled req.integrity resp m
        → Good req (m >>= λ r. ok (record r { url = s.url; redirected = ltb 0 hop }))
    go (err e) h = tt
    go (ok r) h = record {
      final = IsFinal-keep req.redirect resp r s.url (ltb 0 hop) h.same_status h.same_headers f;
      guarded = h.guarded;
    }

-- What a round that does not go on returns.
abbrev SettledGood : {S : Type 0} → Request → Next S → Type 0
SettledGood req (settled r) = Good req r
SettledGood req (again s) = Unit {0}

module _ {S : Type 0} (b : Urls) (d : Digests) (req : Request) (s : Hop) (hop : ℕ) (is_last : Bool)
    (resp : Response S) where
  follow_redirect-SettledGood : SettledGood req (follow_redirect b s is_last resp)
  unfolding follow_redirect
  follow_redirect-SettledGood =
      ground (arith, Result-cases (resolve_url b (location_of resp.headers) s.url))

  final_fits :
      (m : Redirect)
      → req.redirect ≡ m
      → IsFinal m resp
      → SettledGood req (settled (final_response d req s hop resp))
  final_fits m q f = final_response-Good d req s hop resp (subst (λ x. IsFinal x resp) (sym q) f)

  decide_next-SettledGood :
      (m : Redirect) → req.redirect ≡ m → SettledGood req (decide_next b d req m s hop is_last resp)
  unfolding decide_next is_redirect_mode
  decide_next-SettledGood error q = elim (Bool-cases (is_redirect_status resp.status)) [
    | inl e ↦ rw e tt
    | inr e ↦ rw e (final_fits error q e)
  ]
  decide_next-SettledGood manual q = elim (Bool-cases (is_redirect_status resp.status)) [
    | inl e ↦ rw e (record {
      final = subst (λ x. IsFinal {S = S} x blank) (sym q) (blank-IsFinal S manual);
      guarded = λ _. tt;
    })
    | inr e ↦ rw e (final_fits manual q e)
  ]
  decide_next-SettledGood follow q = elim (Bool-cases (is_redirect_status resp.status)) [
    | inr e ↦ rw e (final_fits follow q (inl e))
    | inl e ↦ elim (Bool-cases (bytes_eq (location_of resp.headers) [])) [
      | inl n ↦ rw (e, n) (final_fits follow q (inr ((bytes_eq_iff _ []).0 n)))
      | inr n ↦ rw (e, n) follow_redirect-SettledGood
    ]
  ]

  after_response-SettledGood : SettledGood req (after_response b d req s hop is_last resp)
  unfolding after_response
  after_response-SettledGood = decide_next-SettledGood req.redirect refl

module _ {S W : Type 0} (b : Urls) (d : Digests) (req : Request) (once : Handler S W) where
  conclude-Good :
      (more : Hop → M W (Response S)) (n : Next S) (w : W)
      → SettledGood req n
      → ((s' : Hop) (w' : W) → Good req (more s' w').0)
      → Good req (conclude more n w).0
  unfolding conclude
  conclude-Good more (settled r) w g ih = g
  conclude-Good more (again s') w g ih = ih s' w

  hop-Good :
      (rounds hop : ℕ) (s : Hop) (out : Result Error (Response S) × W)
      → ((s' : Hop) (w' : W) → Good req (redirect_loop b d once req rounds (hop + 1) s' w').0)
      → Good req
          (then_do out λ resp.
            conclude
              (redirect_loop b d once req rounds (hop + 1))
              (after_response b d req s hop (rounds == 0) resp)).0
  hop-Good rounds hop s (err e, w') ih = tt
  hop-Good rounds hop s (ok resp, w') ih =
      conclude-Good _ _ w' (after_response-SettledGood b d req s hop (rounds == 0) resp) ih

  loop-Good :
      (rounds hop : ℕ) (s : Hop) (w : W) → Good req (redirect_loop b d once req rounds hop s w).0
  unfolding redirect_loop
  loop-Good zero hop s w = tt
  loop-Good (suc rounds) hop s w = elim (check_url_ports_cases b s.url) [
    | inr (p, _, e) ↦ rw e tt
    | inl (_, e) ↦
        rw e (hop-Good rounds hop s (once (hop_request s) w) (loop-Good rounds (hop + 1)))
  ]

Good-ok :
    {S : Type 0} (req : Request) (m : Result Error (Response S)) {r : Response S}
    → Good req m
    → m ≡ ok r
    → IsGood req r
Good-ok req m g e = subst (Good req) e g

-- For any middlewares and any transport: a response that `fetch` returns for a URL that does not
-- begin with `data:` is no redirect (in mode `follow`, none with a Location); and where the caller
-- gave integrity metadata, the body is none or is checked against it when it is read.
pub fetch-IsGood :
    {S W : Type 0} (b : Urls) (d : Digests) (c : Client S W) (req : Request) (w : W)
    {r : Response S}
    → starts_with (codes "data:") req.url ≡ false
    → (fetch b d c req w).0 ≡ ok r
    → IsGood req r
unfolding fetch
fetch-IsGood b d c req w not_data e =
    Good-ok req _
      (loop-Good b d req (fetch_once b c) (rounds_of c.opt.max_redirects) 0 (first_hop req) w)
      (rw not_data at e)
