-- ===== src/Web/Url/Link.antt =====
use mathlib.Core.Option
use mathlib.Core.List.{append_assoc}
use mathlib.Core.Option.{some-injective}
use mathlib.Core.Path.{subst}
use quickjs_runtime.Common.{
  List, Option, [], ap, arith, drop, false, if_holds, none, refl, some, suc, sym, take, true, ℕ,
  ◌++◌, ◌∙◌, ◌∷◌, ◌≡◌,
}
use quickjs_runtime.Common.Bytes.{All, Bytes, IsByte, bytes_eq, rfind}
use quickjs_runtime.Web.BoostUrls.{BoostLaws, BoostUrl, IsKeeping}
use quickjs_runtime.Web.Params.{
  Pairs, append, encode_rest, erase, from_query, has, set_param, sort, to_query,
}
use quickjs_runtime.Web.Params.Form.{
  append_bytes, erase_bytes, set_bytes, sort_bytes, to_query_form,
}
use quickjs_runtime.Web.Params.Read.{from_query_bytes}
use quickjs_runtime.Web.Params.RoundTrip.{IsPairBytes, from_query-to_query}
use quickjs_runtime.Web.Url.{
  After, Call, Page, assign, assign_synced, call, calls, change_params, get_search_params, hash_set,
  host_at, host_set, host_then_port, hostname_set, href_set, notify_change, params_append,
  params_delete, params_set, params_sort, parse, pathname_set, port_set, protocol_set, read_params,
  returned, search, search_params_get, search_set, set_hash, set_host, set_hostname, set_href,
  set_pathname, set_port, set_protocol, set_search, set_search_raw, sync_search_params,
  without_colon, without_first,
}
use quickjs_runtime.Web.Utf8.{percent_encode}

-- The list of search parameters and the query of its URL say the same.
abbrev pub IsByteCall : Call → Type 0
IsByteCall (params_append n v) = All IsByte n × All IsByte v
IsByteCall (params_set n v) = All IsByte n × All IsByte v
IsByteCall _ = Unit

module _ {b : BoostUrl} (L : BoostLaws b) where
  abbrev IsLinkedTo : b.Url → Option Pairs → Type 0
  IsLinkedTo u none = Unit
  IsLinkedTo u (some list) = from_query (search b u) ≡ list

  -- The object, where there is one, lists what the query of the URL says.
  unfoldable pub IsLinked : Page b → Type 0
  IsLinked s = IsLinkedTo s.url s.params

  search_kept : (u u' : b.Url) → IsKeeping b u u' → search b u' ≡ search b u
  unfolding search
  search_kept u u' (has, query) = rw (has, query) refl

  kept : (u u' : b.Url) (p : Option Pairs) → IsKeeping b u u' → IsLinkedTo u p → IsLinkedTo u' p
  kept u u' none k h = tt
  kept u u' (some list) k h = ap from_query (search_kept u u' k) ∙ h

  assign-IsLinked :
      (s : Page b) (o : Option b.Url)
      → ((u : b.Url) → o ≡ some u → IsKeeping b s.url u)
      → IsLinked s
      → IsLinked (assign b s o).page
  unfolding IsLinked
  assign-IsLinked s none f h = h
  assign-IsLinked s (some u) f h = kept s.url u s.params (f u refl) h

  reread :
      (u : b.Url) (p : Option Pairs) → IsLinkedTo u (Option.map (λ _. from_query (search b u)) p)
  reread u none = tt
  reread u (some list) = refl

  synced-IsLinked :
      (s : Page b) (o : Option b.Url) → IsLinked s → IsLinked (assign_synced b s o).page
  unfolding IsLinked sync_search_params
  synced-IsLinked s none h = h
  synced-IsLinked s (some u) h = reread u s.params

  search_bytes : (u : b.Url) → All IsByte (search b u)
  unfolding search
  search_bytes u =
      if_holds (All IsByte) (b.has_query u) (b'?' ∷ b.encoded_query u) []
        (omega arith, L.query_bytes u) tt

  list_bytes : (u : b.Url) (list : Pairs) → IsLinkedTo u (some list) → All IsPairBytes list
  list_bytes u list h = subst (All IsPairBytes) h (from_query_bytes (search b u) (search_bytes u))

  not_empty : (a s : Bytes) (c : ℕ) → bytes_eq (a ++ (c ∷ s)) [] ≡ false
  unfolding bytes_eq
  not_empty [] s c = refl
  not_empty (x ∷ a) s c = refl

  pair_not_empty : (p : Bytes × Bytes) (ps : Pairs) → bytes_eq (to_query (p ∷ ps)) [] ≡ false
  pair_not_empty p ps =
      ap (λ t. bytes_eq t [])
        (append_assoc (percent_encode p.0 true) (b'=' ∷ percent_encode p.1 true) (encode_rest ps))
      ∙ not_empty (percent_encode p.0 true) (percent_encode p.1 true ++ encode_rest ps) b'='

  search_of_query :
      (u : b.Url) (q : Bytes) → b.has_query u ≡ true → b.encoded_query u ≡ q → search b u ≡ b'?' ∷ q
  unfolding search
  search_of_query u q has query = rw (has, query) refl

  search_of_none : (u : b.Url) → b.has_query u ≡ false → search b u ≡ []
  unfolding search
  search_of_none u has = rw has refl

  raw_not_empty :
      (q : Bytes) (u : b.Url)
      → bytes_eq q [] ≡ false
      → set_search_raw b q u ≡ b.set_encoded_query q u
  unfolding set_search_raw
  raw_not_empty q u e = rw e refl

  -- Writing a list into the query succeeds, and the list is what the query then says.
  raw_set :
      (list : Pairs) (u : b.Url)
      → All IsPairBytes list
      → (u' : b.Url) × (set_search_raw b (to_query list) u ≡ some u')
        × (from_query (search b u') ≡ list)
  raw_set [] u h =
      let none_left = ap from_query (search_of_none (b.remove_query u) (L.query_removed u)) in
      (
        b.remove_query u,
        (unfold set_search_raw bytes_eq in refl),
        none_left ∙ (from_query-to_query [] tt).0,
      )
  raw_set (p ∷ ps) u h =
      let text = to_query (p ∷ ps) in
      let (u', sets, has, query) = L.query_set text u (to_query_form (p ∷ ps) h) in
      (
        u',
        raw_not_empty text u (pair_not_empty p ps) ∙ sets,
        ap from_query (search_of_query u' text has query) ∙ (from_query-to_query (p ∷ ps) h).1,
      )

  assign_list :
      (s : Page b) (list : Pairs) (o : Option b.Url) (u : b.Url)
      → o ≡ some u
      → from_query (search b u) ≡ list
      → IsLinked (assign b (record s { params = some list }) o).page
  unfolding IsLinked
  assign_list s list none u e h = cc
  assign_list s list (some v) u e h = ap (λ t. from_query (search b t)) (some-injective v u e) ∙ h

  notify-IsLinked :
      (s : Page b) (list : Pairs) → All IsPairBytes list → IsLinked (notify_change b s list).page
  unfolding notify_change
  notify-IsLinked s list h =
      let (u', sets, says) = raw_set list s.url h in
      assign_list s list (set_search_raw b (to_query list) s.url) u' sets says

  change-IsLinked :
      (s : Page b) (p : Option Pairs) (f : Pairs → Pairs)
      → s.params ≡ p
      → ((l : Pairs) → All IsPairBytes l → All IsPairBytes (f l))
      → IsLinked s
      → IsLinked (change_params b s p f).page
  change-IsLinked s none f e k h = h
  change-IsLinked s (some list) f e k h =
      notify-IsLinked s (f list)
        (k list (list_bytes s.url list (subst (IsLinkedTo s.url) e (unfold IsLinked in h))))

  read-IsLinked : (s : Page b) (p : Option Pairs) → IsLinked s → IsLinked (read_params b s p).page
  read-IsLinked s none h = unfold IsLinked in refl
  read-IsLinked s (some list) h = h

  host-IsLinked :
      (v : Bytes) (s : Page b) (o : Option b.Url)
      → ((u : b.Url) → o ≡ some u → IsKeeping b s.url u)
      → IsLinked s
      → IsLinked (host_then_port b v s o).page
  host-IsLinked v s none f h = h
  host-IsLinked v s (some u) f h =
      let s' = record s { url = u } in
      assign-IsLinked s' (b.set_port v u) (λ u'. L.port_set v u u') (assign-IsLinked s (some u) f h)

  host_at-IsLinked :
      (v : Bytes) (s : Page b) (o : Option ℕ) → IsLinked s → IsLinked (host_at b v s o).page
  host_at-IsLinked v s none h =
      assign-IsLinked s (b.set_encoded_host v s.url) (λ u. L.host_set v s.url u) h
  host_at-IsLinked v s (some colon) h =
      host-IsLinked (drop (suc colon) v) s (b.set_encoded_host (take colon v) s.url)
        (λ u. L.host_set (take colon v) s.url u) h

  same_url :
      (s : Page b) (u u' : b.Url)
      → IsKeeping b s.url u'
      → (o : Option b.Url) → o ≡ some u'
      → o ≡ some u
      → IsKeeping b s.url u
  same_url s u u' k o e f = subst (IsKeeping b s.url) (some-injective u' u (sym e ∙ f)) k

  set_hash-IsLinked : (v : Bytes) (s : Page b) → IsLinked s → IsLinked (set_hash b v s).page
  unfolding set_hash
  set_hash-IsLinked v s h =
      let text = without_first b'#' v in
      if_holds (λ o. IsLinked (assign b s o).page) (bytes_eq text [])
        (some (b.remove_fragment s.url)) (b.set_encoded_fragment text s.url)
        (assign-IsLinked s (some (b.remove_fragment s.url))
          (λ u e.
            same_url s u (b.remove_fragment s.url) (L.fragment_removed s.url)
              (some (b.remove_fragment s.url)) refl e)
          h)
        (assign-IsLinked s (b.set_encoded_fragment text s.url) (λ u. L.fragment_set text s.url u) h)

  set_port-IsLinked : (v : Bytes) (s : Page b) → IsLinked s → IsLinked (set_port b v s).page
  unfolding set_port
  set_port-IsLinked v s h =
      if_holds (λ (a : After b). IsLinked a.page) (bytes_eq v [])
        (returned b (record s { url = b.remove_port s.url })) (assign b s (b.set_port v s.url))
        (assign-IsLinked s (some (b.remove_port s.url))
          (λ u e.
            same_url s u (b.remove_port s.url) (L.port_removed s.url) (some (b.remove_port s.url))
              refl e)
          h)
        (assign-IsLinked s (b.set_port v s.url) (λ u. L.port_set v s.url u) h)

  call-IsLinked : (c : Call) (s : Page b) → IsByteCall c → IsLinked s → IsLinked (call b c s).page
  unfolding call
  call-IsLinked (href_set v) s k h = unfold set_href in synced-IsLinked s (parse b v []) h
  call-IsLinked (search_set v) s k h =
      unfold set_search in synced-IsLinked s (set_search_raw b (without_first b'?' v) s.url) h
  call-IsLinked (hash_set v) s k h = set_hash-IsLinked v s h
  call-IsLinked (protocol_set v) s k h =
      unfold set_protocol in
      assign-IsLinked s (b.set_scheme (without_colon v) s.url)
        (λ u. L.scheme_set (without_colon v) s.url u) h
  call-IsLinked (hostname_set v) s k h =
      unfold set_hostname in
      assign-IsLinked s (b.set_encoded_host v s.url) (λ u. L.host_set v s.url u) h
  call-IsLinked (port_set v) s k h = set_port-IsLinked v s h
  call-IsLinked (host_set v) s k h = unfold set_host in host_at-IsLinked v s (rfind b':' v) h
  call-IsLinked (pathname_set v) s k h =
      unfold set_pathname in
      assign-IsLinked s (b.set_encoded_path v s.url) (λ u. L.path_set v s.url u) h
  call-IsLinked search_params_get s k h = unfold get_search_params in read-IsLinked s s.params h
  call-IsLinked params_sort s k h = change-IsLinked s s.params sort refl sort_bytes h
  call-IsLinked (params_append n v) s k h =
      change-IsLinked s s.params (append n v) refl (λ l. append_bytes n v l k.0 k.1) h
  call-IsLinked (params_set n v) s k h =
      change-IsLinked s s.params (set_param n v) refl (λ l. set_bytes n v false l k.0 k.1) h
  call-IsLinked (params_delete n) s k h =
      change-IsLinked s s.params (erase n) refl (erase_bytes n) h

  -- Whatever is set on the URL or changed in its `searchParams`, also where a setter throws, the object
  -- lists what the query of the URL says: for byte strings and under what boost::urls documents.
  pub calls-IsLinked :
      (cs : List Call) (s : Page b) → All IsByteCall cs → IsLinked s → IsLinked (calls b cs s)
  unfolding calls
  calls-IsLinked [] s k h = h
  calls-IsLinked (c ∷ cs) s (kc, k) h =
      calls-IsLinked cs (call b c s).page k (call-IsLinked c s kc h)
