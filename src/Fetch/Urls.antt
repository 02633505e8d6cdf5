-- ===== src/Fetch/Urls.antt =====
-- boost::urls, as include/fetch/client.hpp and url_check.hpp use it.
use quickjs_runtime.Common.{Bool, Option}
use quickjs_runtime.Common.Bytes.{Bytes}

-- What the code uses of boost::urls, which is not part of the repository: a parameter.
-- `none` is a result with an error.
pub record Urls : Type 1 where
  pub Url : Type 0
  pub parse_uri_reference : Bytes → Option Url
  pub has_scheme : Url → Bool
  pub scheme : Url → Bytes
  pub set_scheme : Bytes → Url → Url
  pub encoded_host : Url → Bytes
  pub set_encoded_host : Bytes → Url → Url
  pub has_port : Url → Bool
  pub port : Url → Bytes
  pub remove_port : Url → Url
  pub resolve : Url → Url → Option Url
  pub buffer : Url → Bytes
