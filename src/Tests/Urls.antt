-- ===== src/Tests/Urls.antt =====
-- Examples of URLs and search parameters.
use mathlib.Core.Option.{some-injective}
use quickjs_runtime.Common.{
  Bool, List, Option, [], ap, arith, false, map, none, refl, some, sym, true, ◌%◌, ◌∷◌, ◌≡◌,
}
use quickjs_runtime.Common.Bytes.{All, Bytes, IsByte, bytes_eq, codes, find, rfind}
use quickjs_runtime.Web.BoostUrls.{BoostLaws, BoostUrl, IsKeeping, is_form_text}
use quickjs_runtime.Web.Params.{
  Pairs, bytes_lt, decoded_byte, encode_rest, erase, from_query, get, get_all, hex_byte, hex_value,
  insert_sorted, percent_decode, plain_byte, query_loop, set_loop, set_param, sort, to_query,
  without_mark,
}
use quickjs_runtime.Web.Params.Access.{IsSorted, set_param-access, sort_stable}
use quickjs_runtime.Web.Params.RoundTrip.{IsPairBytes, from_query-to_query, query_loop_ends}
use quickjs_runtime.Web.Url.{
  Call, Page, call, calls, get_search_params, host_set, notify_change, params_append, params_sort,
  search, search_params_get, search_set, set_host, set_search, set_search_raw, sync_search_params,
}
use quickjs_runtime.Web.Url.Link.{IsLinked, calls-IsLinked}
use quickjs_runtime.Web.Utf8.{is_unreserved, percent_encode, percent_encode_byte}

abbrev pairs : Pairs
pairs = (codes "b", codes "1 2") ∷ (codes "a&", codes "x=y") ∷ (codes "b", []) ∷ []

pairs-bytes : All IsPairBytes pairs
pairs-bytes = ground arith

pairs_text : to_query pairs ≡ codes "b=1+2&a%26=x%3Dy&b="
unfolding encode_rest percent_encode percent_encode_byte is_unreserved
pairs_text = refl

pairs_set :
    set_param (codes "b") (codes "3") pairs
    ≡ (codes "b", codes "3") ∷ (codes "a&", codes "x=y") ∷ []
unfolding set_loop bytes_eq
pairs_set = refl

pairs_sorted :
    sort pairs ≡ (codes "a&", codes "x=y") ∷ (codes "b", codes "1 2") ∷ (codes "b", []) ∷ []
unfolding sort insert_sorted bytes_lt
pairs_sorted = refl

from_query-to_query_example :
    (from_query (to_query pairs) ≡ pairs) × (from_query (b'?' ∷ to_query pairs) ≡ pairs)
from_query-to_query_example = from_query-to_query pairs pairs-bytes

query_loop_ends_example : query_loop 9 (without_mark (codes "?a=1&b")) ≡ from_query (codes "?a=1&b")
query_loop_ends_example = query_loop_ends 9 (codes "?a=1&b") (omega arith)

set_param-access_example :
    let l' = set_param (codes "b") (codes "3") pairs in
    (get_all (codes "b") l' ≡ codes "3" ∷ [])
    × (get (codes "b") l' ≡ some (codes "3"))
    × (erase (codes "b") l' ≡ erase (codes "b") pairs)
set_param-access_example = set_param-access (codes "b") (codes "3") pairs

sort_stable_example :
    IsSorted (sort pairs) × (get_all (codes "b") (sort pairs) ≡ get_all (codes "b") pairs)
sort_stable_example = sort_stable (codes "b") pairs

-- A URL that is its query alone, kept in bytes.
abbrev query_of : Option Bytes → Bytes
query_of none = []
query_of (some q) = map (λ c. c % 256) q

abbrev query_there : Option Bytes → Bool
query_there none = false
query_there (some q) = true

abbrev small_url : BoostUrl
small_url = record {
  Url = Option Bytes;
  parse_uri_reference = λ s. some (some s);
  resolve = λ u r. some r;
  has_scheme = λ u. true;
  has_query = query_there;
  has_fragment = λ u. false;
  scheme = λ u. codes "http";
  port = λ u. [];
  encoded_query = query_of;
  encoded_fragment = λ u. [];
  set_scheme = λ v u. some u;
  set_encoded_host = λ v u. some u;
  set_port = λ v u. some u;
  set_encoded_path = λ v u. some u;
  set_encoded_query = λ q u. some (some q);
  set_encoded_fragment = λ v u. none;
  remove_query = λ u. none;
  remove_fragment = λ u. u;
  remove_port = λ u. u;
}

form_text_mod : (q : Bytes) → is_form_text q ≡ true → map (λ c. c % 256) q ≡ q
unfolding is_form_text is_unreserved
form_text_mod [] h = refl
form_text_mod (c ∷ q) h = ground (arith, form_text_mod q)

mod_bytes : (q : Bytes) → All IsByte (map (λ c. c % 256) q)
mod_bytes [] = tt
mod_bytes (c ∷ q) = (omega arith, mod_bytes q)

small_bytes : (u : Option Bytes) → All IsByte (query_of u)
small_bytes none = tt
small_bytes (some q) = mod_bytes q

small_kept :
    (u u' : Option Bytes)
    → Path (Option (Option Bytes)) (some u) (some u')
    → IsKeeping small_url u u'
small_kept u u' e =
    let same = some-injective u u' e in (ap query_there (sym same), ap query_of (sym same))

small_laws : BoostLaws small_url
small_laws = record {
  query_set = λ q u h. (some q, refl, refl, form_text_mod q h);
  query_bytes = small_bytes;
  query_removed = λ u. refl;
  fragment_removed = λ u. (refl, refl);
  port_removed = λ u. (refl, refl);
  scheme_set = λ v u u' e. small_kept u u' e;
  host_set = λ v u u' e. small_kept u u' e;
  port_set = λ v u u' e. small_kept u u' e;
  path_set = λ v u u' e. small_kept u u' e;
  fragment_set = λ v u u' e. cc;
}

abbrev some_calls : List Call
some_calls =
    search_params_get
    ∷ params_append (codes "k") (codes "v w")
    ∷ search_set (codes "?b=2&a=1")
    ∷ params_sort
    ∷ host_set (codes "h:1")
    ∷ []

abbrev start : Page small_url
start = record { url = none; params = none }

some_calls_page : (calls small_url some_calls start).url ≡ some (codes "a=1&b=2")
unfolding calls call set_host rfind set_search set_search_raw bytes_eq sync_search_params
    get_search_params notify_change from_query query_loop find search percent_encode
    percent_encode_byte is_unreserved sort insert_sorted bytes_lt percent_decode decoded_byte
    hex_byte hex_value plain_byte encode_rest
some_calls_page = refl

calls-IsLinked_example : IsLinked small_laws (calls small_url some_calls start)
calls-IsLinked_example =
    calls-IsLinked small_laws some_calls start (ground arith) (unfold IsLinked in tt)
