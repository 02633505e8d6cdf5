-- ===== src/Web/Url.antt =====
-- include/qjsbind/web/url.hpp: `URL`, and its link with the `URLSearchParams` of its query.
pub mod Link
use mathlib.Core.Option
use quickjs_runtime.Common.{
  Bool, List, Option, [], drop, false, if◌then◌else◌, map, none, some, suc, take, true, ℕ, ◌&&◌,
  ◌++◌, ◌==◌, ◌||◌, ◌∷◌,
}
use quickjs_runtime.Common.Bytes.{Bytes, bytes_eq, codes, rfind}
use quickjs_runtime.Fetch.Resolve.{relax}
use quickjs_runtime.Web.BoostUrls.{BoostUrl}
use quickjs_runtime.Web.Params.{Pairs, append, erase, from_query, set_param, sort, to_query}

-- The same text as the relaxing of a redirect's target in include/fetch/client.hpp.
abbrev pub relax_url_chars : Bytes → Bytes
relax_url_chars url = relax url

-- A leading `c` is dropped.
abbrev pub without_first : ℕ → Bytes → Bytes
without_first c [] = []
without_first c (x ∷ v) = if x == c then v else x ∷ v

-- `s.back() == ':'` and `pop_back`.
unfoldable pub without_colon : Bytes → Bytes
without_colon [] = []
without_colon (c ∷ []) = if c == b':' then [] else c ∷ []
without_colon (c ∷ d ∷ v) = c ∷ without_colon (d ∷ v)

pub data Call : Type 0 where
  href_set search_set hash_set protocol_set hostname_set port_set host_set pathname_set :
      Bytes → Call
  search_params_get params_sort : Call
  params_append params_set : Bytes → Bytes → Call
  params_delete : Bytes → Call

module _ (b : BoostUrl) where
  -- The strict grammar first, then the relaxed text; `none` is the TypeError.
  unfoldable pub parse_relaxed : Bytes → Option b.Url
  parse_relaxed str = elim (b.parse_uri_reference str) [
    | some r ↦ some r
    | none ↦ b.parse_uri_reference (relax_url_chars str)
  ]

  unfoldable pub resolve_base : Bytes → b.Url → Option b.Url
  resolve_base base r =
      if bytes_eq base []
      then none
      else elim (parse_relaxed base) [ none ↦ none | some rb ↦ b.resolve rb r ]

  unfoldable pub parse : Bytes → Bytes → Option b.Url
  parse str base = elim (parse_relaxed str) [
    | none ↦ none
    | some r ↦ if b.has_scheme r then some r else resolve_base base r
  ]

  abbrev pub protocol : b.Url → Bytes
  protocol u = b.scheme u ++ (b':' ∷ [])

  -- The default ports are shown empty.
  abbrev pub shown_port : b.Url → Bytes
  shown_port u =
      if bytes_eq (b.scheme u) (codes "http") && bytes_eq (b.port u) (codes "80")
        || bytes_eq (b.scheme u) (codes "https") && bytes_eq (b.port u) (codes "443")
      then []
      else b.port u

  unfoldable pub search : b.Url → Bytes
  search u = if b.has_query u then b'?' ∷ b.encoded_query u else []

  abbrev pub hash : b.Url → Bytes
  hash u = if b.has_fragment u then b'#' ∷ b.encoded_fragment u else []

  -- A URL object and, once its `searchParams` was read, the list of that object.
  pub record Page : Type 0 where
    pub url : b.Url
    pub params : Option Pairs

  -- What a call leaves, and whether it threw.
  pub record After : Type 0 where
    pub threw : Bool
    pub page : Page

  abbrev pub returned : Page → After
  returned s = record { threw = false; page = s }

  abbrev pub thrown : Page → After
  thrown s = record { threw = true; page = s }

  -- A setter of one part: an exception leaves the URL as it was.
  abbrev pub assign : Page → Option b.Url → After
  assign s none = thrown s
  assign s (some u) = returned (record s { url = u })

  unfoldable pub set_search_raw : Bytes → b.Url → Option b.Url
  set_search_raw q u = if bytes_eq q [] then some (b.remove_query u) else b.set_encoded_query q u

  -- The list of an object that exists already is read again from the URL.
  unfoldable pub sync_search_params : Page → Page
  sync_search_params s = record s { params = Option.map (λ _. from_query (search s.url)) s.params }

  abbrev pub assign_synced : Page → Option b.Url → After
  assign_synced s none = thrown s
  assign_synced s (some u) = returned (sync_search_params (record s { url = u }))

  unfoldable pub set_href : Bytes → Page → After
  set_href v s = assign_synced s (parse v [])

  unfoldable pub set_search : Bytes → Page → After
  set_search v s = assign_synced s (set_search_raw (without_first b'?' v) s.url)

  abbrev pub fragment_set : Bytes → b.Url → Option b.Url
  fragment_set v u =
      if bytes_eq v [] then some (b.remove_fragment u) else b.set_encoded_fragment v u

  unfoldable pub set_hash : Bytes → Page → After
  set_hash v s = assign s (fragment_set (without_first b'#' v) s.url)

  unfoldable pub set_protocol : Bytes → Page → After
  set_protocol v s = assign s (b.set_scheme (without_colon v) s.url)

  unfoldable pub set_hostname : Bytes → Page → After
  set_hostname v s = assign s (b.set_encoded_host v s.url)

  unfoldable pub set_port : Bytes → Page → After
  set_port v s =
      if bytes_eq v []
      then returned (record s { url = b.remove_port s.url })
      else assign s (b.set_port v s.url)

  -- The host was set already when the port is refused.
  abbrev pub host_then_port : Bytes → Page → Option b.Url → After
  host_then_port v s none = thrown s
  host_then_port v s (some u) = let s' = record s { url = u } in assign s' (b.set_port v u)

  -- The host and the port stand on either side of the last colon.
  abbrev pub host_at : Bytes → Page → Option ℕ → After
  host_at v s none = assign s (b.set_encoded_host v s.url)
  host_at v s (some colon) =
      host_then_port (drop (suc colon) v) s (b.set_encoded_host (take colon v) s.url)

  unfoldable pub set_host : Bytes → Page → After
  set_host v s = host_at v s (rfind b':' v)

  unfoldable pub set_pathname : Bytes → Page → After
  set_pathname v s = assign s (b.set_encoded_path v s.url)

  -- The getter: the object is made once, and then always the same.
  abbrev pub read_params : Page → Option Pairs → After
  read_params s none = returned (record s { params = some (from_query (search s.url)) })
  read_params s (some list) = returned s

  unfoldable pub get_search_params : Page → After
  get_search_params s = read_params s s.params

  -- A change of the list, which is there even where the URL then refuses the query.
  unfoldable pub notify_change : Page → Pairs → After
  notify_change s list =
      assign (record s { params = some list }) (set_search_raw (to_query list) s.url)

  abbrev pub change_params : Page → Option Pairs → (Pairs → Pairs) → After
  change_params s none f = returned s
  change_params s (some list) f = notify_change s (f list)

  unfoldable pub call : Call → Page → After
  call (href_set v) s = set_href v s
  call (search_set v) s = set_search v s
  call (hash_set v) s = set_hash v s
  call (protocol_set v) s = set_protocol v s
  call (hostname_set v) s = set_hostname v s
  call (port_set v) s = set_port v s
  call (host_set v) s = set_host v s
  call (pathname_set v) s = set_pathname v s
  call search_params_get s = get_search_params s
  call params_sort s = change_params s s.params sort
  call (params_append n v) s = change_params s s.params (append n v)
  call (params_set n v) s = change_params s s.params (set_param n v)
  call (params_delete n) s = change_params s s.params (erase n)

  unfoldable pub calls : List Call → Page → Page
  calls [] s = s
  calls (c ∷ cs) s = calls cs (call c s).page
