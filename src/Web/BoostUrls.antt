-- ===== src/Web/BoostUrls.antt =====
use quickjs_runtime.Common.{Bool, Option, [], false, some, true, ◌&&◌, ◌==◌, ◌||◌, ◌∷◌, ◌≡◌}
use quickjs_runtime.Common.Bytes.{All, Bytes, IsByte}
use quickjs_runtime.Fetch.Resolve.{two_hex}
use quickjs_runtime.Web.Utf8.{is_unreserved}

-- boost::urls, which is not part of the repository, as include/qjsbind/web/url.hpp uses it.

-- `none` is a result with an error, or a setter that throws.
pub record BoostUrl : Type 1 where
  pub Url : Type 0
  pub parse_uri_reference : Bytes → Option Url
  pub resolve : Url → Url → Option Url
  pub has_scheme : Url → Bool
  pub has_query : Url → Bool
  pub has_fragment : Url → Bool
  pub scheme : Url → Bytes
  pub port : Url → Bytes
  pub encoded_query : Url → Bytes
  pub encoded_fragment : Url → Bytes
  pub set_scheme : Bytes → Url → Option Url
  pub set_encoded_host : Bytes → Url → Option Url
  pub set_port : Bytes → Url → Option Url
  pub set_encoded_path : Bytes → Url → Option Url
  pub set_encoded_query : Bytes → Url → Option Url
  pub set_encoded_fragment : Bytes → Url → Option Url
  pub remove_query : Url → Url
  pub remove_fragment : Url → Url
  pub remove_port : Url → Url

-- Text that a query may hold as it is: of the characters of a form, and whole escapes.
unfoldable pub is_form_text : Bytes → Bool
is_form_text [] = true
is_form_text (c ∷ q) =
    (is_unreserved c || c == b'+' || c == b'=' || c == b'&' || (c == b'%' && two_hex q))
    && is_form_text q

-- A setter of another part leaves the query as it is.
abbrev pub IsKeeping : (b : BoostUrl) → b.Url → b.Url → Type 0
IsKeeping b u u' = (b.has_query u' ≡ b.has_query u) × (b.encoded_query u' ≡ b.encoded_query u)

-- What the documentation of boost::urls says of the query.
pub record BoostLaws (b : BoostUrl) : Type 0 where
  pub query_set :
      (q : Bytes) (u : b.Url)
      → is_form_text q ≡ true
      → (u' : b.Url) × (b.set_encoded_query q u ≡ some u')
        × (b.has_query u' ≡ true)
        × (b.encoded_query u' ≡ q)
  pub query_bytes : (u : b.Url) → All IsByte (b.encoded_query u)
  pub query_removed : (u : b.Url) → b.has_query (b.remove_query u) ≡ false
  pub fragment_removed : (u : b.Url) → IsKeeping b u (b.remove_fragment u)
  pub port_removed : (u : b.Url) → IsKeeping b u (b.remove_port u)
  pub scheme_set : (v : Bytes) (u u' : b.Url) → b.set_scheme v u ≡ some u' → IsKeeping b u u'
  pub host_set : (v : Bytes) (u u' : b.Url) → b.set_encoded_host v u ≡ some u' → IsKeeping b u u'
  pub port_set : (v : Bytes) (u u' : b.Url) → b.set_port v u ≡ some u' → IsKeeping b u u'
  pub path_set : (v : Bytes) (u u' : b.Url) → b.set_encoded_path v u ≡ some u' → IsKeeping b u u'
  pub fragment_set :
      (v : Bytes) (u u' : b.Url) → b.set_encoded_fragment v u ≡ some u' → IsKeeping b u u'
