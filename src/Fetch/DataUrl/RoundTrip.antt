-- ===== src/Fetch/DataUrl/RoundTrip.antt =====
-- What `parse_data_url` reads from URLs that carry given bytes.
use quickjs_runtime.Common.{
  Bool, [], arith, drop, false, leb, length, none, refl, some, suc, take, true, ℕ, ◌++◌, ◌+◌, ◌-◌,
  ◌||◌, ◌∙◌, ◌∷◌, ◌≡◌,
}
use quickjs_runtime.Common.Bytes.{
  All, Bytes, IsByte, bytes_eq, codes, contains, find, find-append, rfind, to_lower,
}
use quickjs_runtime.Fetch.Base64.{base64_decode, base64_encode}
use quickjs_runtime.Fetch.Base64.RoundTrip.{base64_decode-encode}
use quickjs_runtime.Fetch.DataUrl.{meta_of, mime_loop, mime_of, parse_data_url, split_base64}
use quickjs_runtime.Fetch.Percent.{percent_decode, percent_decode-encode}
use quickjs_runtime.Web.Utf8.{percent_encode}

pub take-length : (a b : Bytes) → take (length a) (a ++ b) ≡ a
take-length [] b = refl
take-length (x ∷ a) b = cc (take-length a b)

drop-length : (a b : Bytes) → drop (length a) (a ++ b) ≡ b
drop-length [] b = refl
drop-length (x ∷ a) b = drop-length a b

pub drop_after : (a : Bytes) (c : ℕ) (b : Bytes) → drop (length a + 1) (a ++ (c ∷ b)) ≡ b
drop_after a c b = let e : length a + 1 ≡ suc (length a) = omega arith in rw e (go a)
  where
    go : (a : Bytes) → drop (suc (length a)) (a ++ (c ∷ b)) ≡ b
    go [] = refl
    go (x ∷ a) = go a

rfind-none : (c : ℕ) (s : Bytes) → contains c s ≡ false → rfind c s ≡ none
unfolding rfind contains
rfind-none c [] h = refl
rfind-none c (x ∷ xs) h = ground (arith, rfind-none c xs)

rfind-append :
    (c : ℕ) (a b : Bytes) → contains c b ≡ false → rfind c (a ++ (c ∷ b)) ≡ some (length a)
unfolding rfind
rfind-append c [] b h = ground (arith, rfind-none c b h)
rfind-append c (x ∷ a) b h = rw (rfind-append c a b h)

pub contains-append : (c : ℕ) (a b : Bytes) → contains c (a ++ b) ≡ (contains c a || contains c b)
unfolding contains
contains-append c [] b = refl
contains-append c (x ∷ a) b = ground (arith, contains-append c a b)

-- A URL "data:<meta>,<data>" whose meta part holds no comma is split where it should be.
module _ (meta payload : Bytes) (no_comma : contains b',' meta ≡ false) where
  abbrev data_url : Bytes
  data_url = codes "data:" ++ (meta ++ (b',' ∷ payload))

  abbrev comma : ℕ
  comma = length (codes "data:" ++ meta)

  comma_at : find b',' data_url ≡ some comma
  comma_at = find-append b',' (codes "data:" ++ meta) payload (unfold contains in no_comma)

  meta_lem : meta_of data_url comma ≡ meta
  unfolding meta_of
  meta_lem =
      let far : leb 5 comma ≡ true = ground arith in
      let e : comma - 5 ≡ length meta = omega arith in
      rw (far, e) (take-length meta (b',' ∷ payload))

  data_lem : drop (comma + 1) data_url ≡ payload
  data_lem = drop_after (codes "data:" ++ meta) b',' payload

  parse_plain :
      (split_base64 meta).0 ≡ false
      → parse_data_url data_url ≡ some (mime_of (split_base64 meta).1, percent_decode payload)
  unfolding parse_data_url
  parse_plain h = rw (comma_at, parse_data_url) (rw (meta_lem, data_lem, h))

  parse_base64 :
      (d : Bytes)
      → (split_base64 meta).0 ≡ true
      → base64_decode payload ≡ some d
      → parse_data_url data_url ≡ some (mime_of (split_base64 meta).1, d)
  unfolding parse_data_url
  parse_base64 d h e = rw (comma_at, parse_data_url) (rw (meta_lem, data_lem, h, e))

split_base64-marked : (meta : Bytes) → split_base64 (meta ++ (b';' ∷ codes "base64")) ≡ (true, meta)
unfolding split_base64
split_base64-marked meta =
    rw (rfind-append b';' meta (codes "base64") (unfold contains in refl), split_base64)
      (rw (drop_after meta b';' (codes "base64"), take-length meta (b';' ∷ codes "base64"))
        (unfold bytes_eq to_lower in refl))

split_base64_unmarked :
    (meta : Bytes) → (split_base64 meta).0 ≡ false → (split_base64 meta).1 ≡ meta
unfolding split_base64
split_base64_unmarked meta h = ground arith

-- A base64 data URL made from a media type without a comma and any bytes is read back as those
-- bytes, under the media type's normal form.
pub parse_data_url-base64 :
    (meta s : Bytes)
    → contains b',' meta ≡ false
    → All IsByte s
    → parse_data_url
        (codes "data:" ++ ((meta ++ (b';' ∷ codes "base64")) ++ (b',' ∷ base64_encode s)))
      ≡ some (mime_of meta, s)
parse_data_url-base64 meta s h bs =
    let marked = split_base64-marked meta in
    parse_base64 (meta ++ (b';' ∷ codes "base64")) (base64_encode s)
      (contains-append b',' meta (b';' ∷ codes "base64") ∙ rw h (unfold contains in refl)) s
      (rw marked) (base64_decode-encode s bs)
    ∙ rw marked

-- A data URL made from a media type that has no comma and does not end in a base64 mark, and from
-- percent-encoded bytes, is read back as those bytes, under the media type's normal form.
pub parse_data_url-percent :
    (meta s : Bytes)
    → contains b',' meta ≡ false
    → (split_base64 meta).0 ≡ false
    → All IsByte s
    → parse_data_url (codes "data:" ++ (meta ++ (b',' ∷ percent_encode s false)))
      ≡ some (mime_of meta, s)
parse_data_url-percent meta s h plain bs =
    parse_plain meta (percent_encode s false) h plain ∙ rw (percent_decode-encode s bs, unmarked)
  where
    unmarked : (split_base64 meta).1 ≡ meta
    unmarked = split_base64_unmarked meta plain

-- The normal form of a media type is its own normal form.
mime_loop_idem : (m : Bytes) (f : Bool) → mime_loop (mime_loop m f) f ≡ mime_loop m f
unfolding mime_loop to_lower
mime_loop_idem [] f = refl
mime_loop_idem (c ∷ cs) true = ground (arith, mime_loop_idem cs true, mime_loop_idem cs false)
mime_loop_idem (c ∷ cs) false = ground (arith, mime_loop_idem cs true, mime_loop_idem cs false)
