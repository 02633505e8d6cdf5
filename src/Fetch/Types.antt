-- ===== src/Fetch/Types.antt =====
-- include/fetch/types.hpp, error.hpp, transport.hpp and body.hpp: the value types of the library.
--
-- `S` stands for the body sources that a transport makes; the library's own sources wrap one.
-- `message` and the exception classes are told apart by the constructors of `Error`.
use quickjs_runtime.Common.{Bool, List, Option, [], false, none, ℕ}
use quickjs_runtime.Common.Bytes.{Bytes}
use quickjs_runtime.Common.Result.{Result, err, ok}

-- What is thrown. `transport` is an exception of the transport, of a decoder or of a middleware of
-- the user's, told apart by a number of its own.
pub data Error : Type 0 where
  blocked_port : ℕ → Error
  redirect_refused too_many_redirects bad_location bad_base bad_resolution bad_data_url : Error
  integrity_null_body integrity_mismatch integrity_format integrity_algorithm : Error
  no_tunnel : Error
  transport : ℕ → Error

pub record Header : Type 0 where
  pub name : Bytes
  pub value : Bytes

abbrev pub Headers : Type 0
Headers = List Header

pub data Redirect : Type 0 where
  follow error manual : Redirect

pub record Request : Type 0 where
  pub method : Bytes
  pub url : Bytes
  pub headers : Headers
  pub body : Bytes
  pub integrity : Bytes
  pub redirect : Redirect

-- `DecompressSource::Kind`.
pub data Kind : Type 0 where
  gzip deflate brotli : Kind

-- The classes derived from `BodySource`, with what their constructors store.
pub data Body (S : Type 0) : Type 0 where
  raw : S → Body S
  bytes : Bytes → ℕ → Body S
  decompress : Kind → ℕ → Body S → Body S
  integrity : Bytes → Bytes → Body S → Body S

pub record Response (S : Type 0) : Type 0 where
  pub status : ℕ
  pub reason : Bytes
  pub headers : Headers
  pub url : Bytes
  pub redirected : Bool
  pub body : Option (Body S)

-- The defaults of `Response`.
abbrev pub blank : {S : Type 0} → Response S
blank = record { status = 0; reason = []; headers = []; url = []; redirected = false; body = none }

-- `max_redirects` is an `int`: a negative one allows no request at all.
pub data MaxRedirects : Type 0 where
  at_most : ℕ → MaxRedirects
  negative : MaxRedirects

pub record Options : Type 0 where
  pub auto_decompress : Bool
  pub max_redirects : MaxRedirects
  pub max_decompressed_bytes : ℕ

-- The state and exception monad of the coroutines. `W` is the state of what stands outside: the
-- transport, the user's middlewares. An exception keeps the changes made before it.
abbrev pub M : Type 0 → Type 0 → Type 0
M W A = W → Result Error A × W

abbrev pub throw : {W A : Type 0} → Error → M W A
throw e w = (err e, w)

abbrev pub return : {W A : Type 0} → A → M W A
return a w = (ok a, w)

-- What `co_await` does with an awaited task that threw: it throws on.
abbrev pub then_do : {W A B : Type 0} → Result Error A × W → (A → M W B) → Result Error B × W
then_do (ok a, w) f = f a w
then_do (err e, w) f = (err e, w)

infixl 5 ◌>>=ᴹ◌
abbrev pub ◌>>=ᴹ◌ : {W A B : Type 0} → M W A → (A → M W B) → M W B
◌>>=ᴹ◌ m f w = then_do (m w) f

-- `fetch::Handler`, and `Middleware::intercept`.
abbrev pub Handler : Type 0 → Type 0 → Type 0
Handler S W = Request → M W (Response S)

abbrev pub Middleware : Type 0 → Type 0 → Type 0
Middleware S W = Request → Handler S W → M W (Response S)
