-- ===== src/Fetch/Socks5.antt =====
-- src/fetch/socks5.cpp: the handshake with a SOCKS5 proxy, over a connection that stands.
-- Resolving the proxy's name, connecting to it and cancelling are boost::asio's, and left out.
pub mod Handshake
use Prim.Native.Nat.{min}
use quickjs_runtime.Common.{
  List, Option, [], get_or, if◌then◌else◌, length, none, not, some, suc, take, zero, ℕ, ◌%◌, ◌++◌,
  ◌+◌, ◌/◌, ◌==◌, ◌^◌, ◌||◌, ◌∷◌,
}
use quickjs_runtime.Common.Bytes.{Bytes}
use quickjs_runtime.Common.Result.{Result, err, ok}
use quickjs_runtime.Fetch.Chain.{Socks5Proxy}

-- What is thrown. `eof` is the end of the connection inside a message.
pub data SocksError : Type 0 where
  eof bad_version no_acceptable_method auth_rejected auth_failed undeclared_method : SocksError
  malformed_reply unsupported_bnd : SocksError
  connect_rejected : ℕ → SocksError

-- The connection: the bytes that the proxy will have sent, and the messages written to it.
pub record Sock : Type 0 where
  pub incoming : Bytes
  pub sent : List Bytes

abbrev pub Io : Type 0 → Type 0
Io A = Sock → Result SocksError A × Sock

abbrev pub then_io :
    {A B : Type 0} → Result SocksError A × Sock → (A → Io B) → Result SocksError B × Sock
then_io (ok a, s) f = f a s
then_io (err e, s) f = (err e, s)

infixl 5 ◌>>=ᴵ◌
abbrev pub ◌>>=ᴵ◌ : {A B : Type 0} → Io A → (A → Io B) → Io B
◌>>=ᴵ◌ m f s = then_io (m s) f

-- `async_write` of a whole buffer.
abbrev pub async_write : Bytes → Io (Unit {0})
async_write message s = (ok tt, record s { sent = s.sent ++ (message ∷ []) })

-- The first `n` bytes and the rest, if there are as many.
abbrev pub split_at : ℕ → Bytes → Option (Bytes × Bytes)
split_at zero s = some ([], s)
split_at (suc n) [] = none
split_at (suc n) (x ∷ xs) = elim (split_at n xs) [ none ↦ none | some (a, b) ↦ some (x ∷ a, b) ]

abbrev pub read_result : Option (Bytes × Bytes) → Sock → Result SocksError Bytes × Sock
read_result none s = (err eof, s)
read_result (some (a, b)) s = (ok a, record s { incoming = b })

-- `async_read` of a buffer of `n` bytes.
abbrev pub async_read : ℕ → Io Bytes
async_read n s = read_result (split_at n s.incoming) s

-- boost::asio's parsers of address literals, which are not part of the repository.
pub record Addresses : Type 0 where
  pub make_address_v4 : Bytes → Option Bytes
  pub make_address_v6 : Bytes → Option Bytes

unfoldable pub build_greeting : Socks5Proxy → Bytes
build_greeting p = elim p.auth [ none ↦ 5 ∷ 1 ∷ 0 ∷ [] | some _ ↦ 5 ∷ 1 ∷ 2 ∷ [] ]

-- A length byte and the text, cut to 255 bytes.
unfoldable pub short_text : Bytes → Bytes
short_text text = min (length text) 255 ∷ take 255 text

unfoldable pub build_userpass : Bytes → Bytes → Bytes
build_userpass user pass = 1 ∷ (short_text user ++ short_text pass)

unfoldable pub build_target : Addresses → Bytes → Bytes
build_target a host = elim (a.make_address_v4 host) [
  | some v4 ↦ 1 ∷ v4
  | none ↦ elim (a.make_address_v6 host) [ some v6 ↦ 4 ∷ v6 | none ↦ 3 ∷ short_text host ]
]

unfoldable pub build_connect : Addresses → Bytes → ℕ → Bytes
build_connect a host port = 5 ∷ 1 ∷ 0 ∷ (build_target a host ++ (port / 2 ^ 8 ∷ port % 2 ^ 8 ∷ []))

abbrev pub byte_at : Bytes → ℕ → ℕ
byte_at s i = get_or s i 0

abbrev pub fail : {A : Type 0} → SocksError → Io A
fail e s = (err e, s)

abbrev pub done : Io (Unit {0})
done s = (ok tt, s)

-- RFC 1929: the credentials, and the server's verdict.
unfoldable pub authenticate : Bytes → Bytes → Io (Unit {0})
authenticate user pass = async_write (build_userpass user pass) >>=ᴵ λ _. async_read 2 >>=ᴵ λ ur.
    if not (byte_at ur 0 == 1) || not (byte_at ur 1 == 0) then fail auth_failed else done

-- The chosen method, against what was offered.
unfoldable pub accept_method : Option (Bytes × Bytes) → ℕ → Io (Unit {0})
accept_method (some (user, pass)) method =
    if not (method == 2) then fail auth_rejected else authenticate user pass
accept_method none method = if not (method == 0) then fail undeclared_method else done

unfoldable pub negotiate : Socks5Proxy → Io (Unit {0})
negotiate p = async_write (build_greeting p) >>=ᴵ λ _. async_read 2 >>=ᴵ λ gr.
    if not (byte_at gr 0 == 5)
    then fail bad_version
    else if byte_at gr 1 == 0xff
    then fail no_acceptable_method
    else accept_method p.auth (byte_at gr 1)

-- The length of BND.ADDR, by its type.
unfoldable pub bnd_length : ℕ → Io ℕ
bnd_length atyp =
    if atyp == 1
    then (λ s. (ok 4, s))
    else if atyp == 4
    then (λ s. (ok 16, s))
    else if atyp == 3
    then (async_read 1 >>=ᴵ λ n. λ s. (ok (byte_at n 0), s))
    else fail unsupported_bnd

unfoldable pub read_reply : Io (Unit {0})
read_reply = async_read 4 >>=ᴵ λ rh.
    if not (byte_at rh 0 == 5) || not (byte_at rh 2 == 0)
    then fail malformed_reply
    else if not (byte_at rh 1 == 0)
    then fail (connect_rejected (byte_at rh 1))
    else bnd_length (byte_at rh 3) >>=ᴵ λ n. async_read (n + 2) >>=ᴵ λ _. done

unfoldable pub socks5_connect : Addresses → Socks5Proxy → Bytes → ℕ → Io (Unit {0})
socks5_connect a p host port =
    negotiate p >>=ᴵ λ _. async_write (build_connect a host port) >>=ᴵ λ _. read_reply
