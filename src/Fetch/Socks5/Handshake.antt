-- ===== src/Fetch/Socks5/Handshake.antt =====
-- What the handshake sends, when it sends credentials, and how much of the stream it takes.
use Prim.Native.Nat.{min}
use mathlib.Core.List.{append_assoc}
use quickjs_runtime.Common.{
  List, Option, [], ap, arith, length, length-append, none, refl, some, suc, take, zero, ℕ, ◌++◌,
  ◌+◌, ◌∷◌, ◌≡◌, ◌≢◌, ◌≤◌, ◌⊎◌,
}
use quickjs_runtime.Common.Bytes.{Bytes}
use quickjs_runtime.Common.Result.{Result, err, ok}
use quickjs_runtime.Fetch.Chain.{Socks5Proxy}
use quickjs_runtime.Fetch.Socks5.{
  Addresses, Sock, SocksError, accept_method, async_read, authenticate, bnd_length, build_connect,
  build_greeting, build_target, build_userpass, byte_at, connect_rejected, negotiate, read_reply,
  short_text, socks5_connect, split_at,
}

abbrev greeting_auth : Bytes
greeting_auth = 5 ∷ 1 ∷ 2 ∷ []

abbrev greeting_open : Bytes
greeting_open = 5 ∷ 1 ∷ 0 ∷ []

-- The messages sent up to and with the credentials.
abbrev pub with_credentials : Bytes → Bytes → List Bytes
with_credentials user pass = greeting_auth ∷ build_userpass user pass ∷ []

-- What the end of the negotiation says of the input. Success: the server chose the one method
-- that was offered (and took the credentials), and just those bytes are read. Failure: the
-- credentials were sent only if the server had asked for them.
abbrev pub Negotiated :
    Option (Bytes × Bytes) → Bytes → Result SocksError (Unit {0}) × Sock → Type 0
Negotiated (some (user, pass)) input (ok _, s) =
    (input ≡ 5 ∷ 2 ∷ 1 ∷ 0 ∷ s.incoming) × (s.sent ≡ with_credentials user pass)
Negotiated none input (ok _, s) = (input ≡ 5 ∷ 0 ∷ s.incoming) × (s.sent ≡ greeting_open ∷ [])
Negotiated (some (user, pass)) input (err _, s) =
    (s.sent ≡ greeting_auth ∷ [])
    ⊎ ((byte_at input 0 ≡ 5) × (byte_at input 1 ≡ 2) × (s.sent ≡ with_credentials user pass))
Negotiated none input (err _, s) = s.sent ≡ greeting_open ∷ []

module _ (host : Bytes) (port : ℕ) where
  abbrev proxy : Option (Bytes × Bytes) → Socks5Proxy
  proxy auth = record { host = host; port = port; auth = auth }

  abbrev fresh : Bytes → Sock
  fresh input = record { incoming = input; sent = [] }

  negotiate-open : (input : Bytes) → Negotiated none input (negotiate (proxy none) (fresh input))
  unfolding negotiate accept_method build_greeting
  negotiate-open [] = ground arith
  negotiate-open (a ∷ []) = ground arith
  negotiate-open (a ∷ b ∷ rest) = ground arith

  negotiate-auth :
      (user pass input : Bytes)
      → Negotiated (some (user, pass)) input (negotiate (proxy (some (user, pass))) (fresh input))
  unfolding negotiate accept_method authenticate build_greeting
  negotiate-auth user pass [] = ground arith
  negotiate-auth user pass (a ∷ []) = ground arith
  negotiate-auth user pass (a ∷ b ∷ []) = ground arith
  negotiate-auth user pass (a ∷ b ∷ c ∷ []) = ground arith
  negotiate-auth user pass (a ∷ b ∷ c ∷ d ∷ rest) = ground arith

  -- There is no downgrade: with credentials configured the negotiation succeeds only if the server
  -- chose user and password and took them; without, only if it chose no authentication. It reads
  -- the server's answers and no more, and sends credentials only to a server that chose them.
  pub negotiate-Negotiated :
      (auth : Option (Bytes × Bytes)) (input : Bytes)
      → Negotiated auth input (negotiate (proxy auth) (fresh input))
  negotiate-Negotiated none input = negotiate-open input
  negotiate-Negotiated (some (user, pass)) input = negotiate-auth user pass input

-- What a server sends that lets a client with `auth` in.
abbrev pub welcome : Option (Bytes × Bytes) → Bytes
welcome none = 5 ∷ 0 ∷ []
welcome (some _) = 5 ∷ 2 ∷ 1 ∷ 0 ∷ []

abbrev pub opening : Option (Bytes × Bytes) → List Bytes
opening none = greeting_open ∷ []
opening (some (user, pass)) = with_credentials user pass

-- BND.ADDR and BND.PORT in each of their forms.
pub data Bound : Type 0 where
  v4 v6 domain : (addr : Bytes) (hi lo : ℕ) → Bound

abbrev pub bound_bytes : Bound → Bytes
bound_bytes (v4 addr hi lo) = 1 ∷ (addr ++ (hi ∷ lo ∷ []))
bound_bytes (v6 addr hi lo) = 4 ∷ (addr ++ (hi ∷ lo ∷ []))
bound_bytes (domain addr hi lo) = 3 ∷ length addr ∷ (addr ++ (hi ∷ lo ∷ []))

abbrev pub IsBound : Bound → Type 0
IsBound (v4 addr hi lo) = length addr ≡ 4
IsBound (v6 addr hi lo) = length addr ≡ 16
IsBound (domain addr hi lo) = length addr ≤ 255

split_at-length : (n : ℕ) (xs ys : Bytes) → length xs ≡ n → split_at n (xs ++ ys) ≡ some (xs, ys)
split_at-length zero [] ys h = refl
split_at-length (suc n) [] ys h = absurd (omega arith)
split_at-length zero (x ∷ xs) ys h = absurd (omega arith)
split_at-length (suc n) (x ∷ xs) ys h = rw (split_at-length n xs ys (omega arith))

read_bound :
    (addr : Bytes) (hi lo n : ℕ) (rest : Bytes) (sent : List Bytes)
    → length addr ≡ n
    → async_read (n + 2) (record { incoming = (addr ++ (hi ∷ lo ∷ [])) ++ rest; sent = sent })
      ≡ (ok (addr ++ (hi ∷ lo ∷ [])), record { incoming = rest; sent = sent })
read_bound addr hi lo n rest sent h = rw (
    split_at-length (n + 2) (addr ++ (hi ∷ lo ∷ [])) rest
      (omega (arith, length-append addr (hi ∷ lo ∷ []))))

read_reply-bound :
    (bnd : Bound) (rest : Bytes) (sent : List Bytes)
    → IsBound bnd
    → read_reply (record { incoming = 5 ∷ 0 ∷ 0 ∷ (bound_bytes bnd ++ rest); sent = sent })
      ≡ (ok tt, record { incoming = rest; sent = sent })
unfolding read_reply bnd_length
read_reply-bound (v4 addr hi lo) rest sent h = rw (read_bound addr hi lo 4 rest sent h)
read_reply-bound (v6 addr hi lo) rest sent h = rw (read_bound addr hi lo 16 rest sent h)
read_reply-bound (domain addr hi lo) rest sent h =
    rw (read_bound addr hi lo (length addr) rest sent refl)

-- A proxy that lets the client in and accepts the request, with any form of bound address, is
-- connected to. Just its answers are read: the target's first bytes are left in the stream. The
-- messages are the greeting, the credentials if there are any, and the request.
pub socks5_connect-succeeds :
    (a : Addresses) (host : Bytes) (port : ℕ) (auth : Option (Bytes × Bytes)) (target : Bytes)
    (target_port : ℕ) (bnd : Bound) (rest : Bytes)
    → IsBound bnd
    → socks5_connect a
        (proxy host port auth)
        target
        target_port
        (record { incoming = welcome auth ++ (5 ∷ 0 ∷ 0 ∷ (bound_bytes bnd ++ rest)); sent = [] })
      ≡ (
        ok tt,
        record {
          incoming = rest;
          sent = opening auth ++ (build_connect a target target_port ∷ []);
        },
      )
unfolding socks5_connect negotiate accept_method authenticate build_greeting
socks5_connect-succeeds a host port none target target_port bnd rest h =
    read_reply-bound bnd rest (opening none ++ (build_connect a target target_port ∷ [])) h
socks5_connect-succeeds a host port (some (user, pass)) target target_port bnd rest h =
    read_reply-bound bnd rest
      (opening (some (user, pass)) ++ (build_connect a target target_port ∷ [])) h

-- A reply that names an error is passed on with its code, and nothing is read behind it.
pub read_reply-rejected :
    (code atyp : ℕ) (rest : Bytes) (sent : List Bytes)
    → code ≢ 0
    → read_reply (record { incoming = 5 ∷ code ∷ 0 ∷ atyp ∷ rest; sent = sent })
      ≡ (err (connect_rejected code), record { incoming = rest; sent = sent })
unfolding read_reply bnd_length
read_reply-rejected code atyp rest sent h = ground arith

-- How a server reads a length byte and a text.
abbrev pub read_text : Bytes → Option (Bytes × Bytes)
read_text [] = none
read_text (n ∷ s) = split_at n s

take_all : (n : ℕ) (s : Bytes) → length s ≤ n → take n s ≡ s
take_all zero [] h = refl
take_all zero (x ∷ s) h = absurd (omega arith)
take_all (suc n) [] h = refl
take_all (suc n) (x ∷ s) h = ap (◌∷◌ x) (take_all n s (omega arith))

min_le : (n : ℕ) → n ≤ 255 → min n 255 ≡ n
min_le n h = omega arith

-- A host name of at most 255 bytes that is no address literal reaches the proxy whole.
build_target-read_text :
    (a : Addresses) (host rest : Bytes)
    → a.make_address_v4 host ≡ none
    → a.make_address_v6 host ≡ none
    → length host ≤ 255
    → (tail : Bytes) × (build_target a host ++ rest ≡ 3 ∷ tail)
      × (read_text tail ≡ some (host, rest))
unfolding build_target short_text
build_target-read_text a host rest no_v4 no_v6 h = (
  length host ∷ (host ++ rest),
  rw (no_v4, build_target)
      (rw (no_v6, build_target) (rw (min_le (length host) h, take_all 255 host h))),
  split_at-length (length host) host rest refl,
)

-- The same of the credentials: the server reads both texts as they were configured.
build_userpass-read_text :
    (user pass rest : Bytes)
    → length user ≤ 255
    → length pass ≤ 255
    → (tail behind : Bytes) × (build_userpass user pass ++ rest ≡ 1 ∷ tail)
      × (read_text tail ≡ some (user, behind))
      × (read_text behind ≡ some (pass, rest))
unfolding build_userpass short_text
build_userpass-read_text user pass rest hu hp = (
  length user ∷ (user ++ (length pass ∷ (pass ++ rest))),
  length pass ∷ (pass ++ rest),
  rw (min_le (length user) hu, take_all 255 user hu, min_le (length pass) hp, take_all 255 pass hp)
      (simp append_assoc),
  split_at-length (length user) user _ refl,
  split_at-length (length pass) pass rest refl,
)
