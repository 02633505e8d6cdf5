-- ===== src/Tests/Texts.antt =====
use quickjs_runtime.Cheerio.Anb.{IsAnb, c_anb_match, c_anb_match_iff}
use quickjs_runtime.Cheerio.Ints.{int64, negsuc, pos, ◌*ℤ◌, ◌+ℤ◌, ◌-ℤ◌, ◌/ℤ◌}
use quickjs_runtime.Cheerio.Words.{dash, text_holds}
use quickjs_runtime.Cheerio.Words.Attributes.{IsTextMatch, text_holds_iff}
use quickjs_runtime.Common.{
  [], arith, false, length, map, none, refl, some, true, ◌*◌, ◌++◌, ◌/◌, ◌↔◌, ◌∷◌, ◌≡◌,
}
use quickjs_runtime.Common.Bytes.{All, Bytes, IsByte, bytes_eq, codes, contains, rfind}
use quickjs_runtime.Fetch.Base64.{
  base64_decode, base64_encode, digest_matches, encode_group, letter, norm, plain_letter,
  strip_padding,
}
use quickjs_runtime.Fetch.Base64.Accepts.{Reads, all_letters, base64_decode_accepts, payload}
use quickjs_runtime.Fetch.Base64.Digest.{digest_matches_sound}
use quickjs_runtime.Fetch.Base64.RoundTrip.{base64_decode-encode}
use quickjs_runtime.Fetch.DataUrl.{mime_of, parse_data_url, split_base64}
use quickjs_runtime.Fetch.DataUrl.RoundTrip.{parse_data_url-base64, parse_data_url-percent}
use quickjs_runtime.Fetch.Percent.{percent_decode}
use quickjs_runtime.Fetch.Resolve.{relax_from}
use quickjs_runtime.Fetch.Resolve.Relax.{percent_decode-relax_from}
use quickjs_runtime.Web.Utf8.{percent_encode}

-- Examples for encodings, URLs and the texts of selectors.

abbrev sample : Bytes
sample = 0 ∷ 255 ∷ 37 ∷ 65 ∷ []

sample-bytes : All IsByte sample
sample-bytes = (omega arith, (omega arith, (omega arith, (omega arith, tt))))

base64_decode-encode_example : base64_decode (base64_encode sample) ≡ some sample
base64_decode-encode_example = base64_decode-encode sample sample-bytes

base64_decode_accepts_example :
    (all_letters (payload sample) ≡ true
      → Reads (base64_decode sample) (6 * length (payload sample) / 8))
    × (all_letters (payload sample) ≡ false → base64_decode sample ≡ none)
base64_decode_accepts_example = base64_decode_accepts sample sample-bytes

spells : digest_matches (codes "-_8") (base64_encode (251 ∷ 255 ∷ [])) ≡ true
unfolding digest_matches base64_encode encode_group norm strip_padding bytes_eq plain_letter letter
spells = refl

digest_matches_sound_example :
    base64_decode (map plain_letter (codes "-_8")) ≡ some (251 ∷ 255 ∷ [])
digest_matches_sound_example =
    digest_matches_sound (codes "-_8") (251 ∷ 255 ∷ []) (omega arith, (omega arith, tt)) spells

parse_data_url-base64_example :
    parse_data_url (
      codes "data:"
      ++ ((codes "text/plain" ++ (b';' ∷ codes "base64")) ++ (b',' ∷ base64_encode sample)))
    ≡ some (mime_of (codes "text/plain"), sample)
parse_data_url-base64_example =
    parse_data_url-base64 (codes "text/plain") sample (unfold contains in refl) sample-bytes

not_marked : (split_base64 (codes "text/plain")).0 ≡ false
unfolding split_base64 rfind
not_marked = refl

parse_data_url-percent_example :
    parse_data_url (codes "data:" ++ (codes "text/plain" ++ (b',' ∷ percent_encode sample false)))
    ≡ some (mime_of (codes "text/plain"), sample)
parse_data_url-percent_example =
    parse_data_url-percent (codes "text/plain") sample (unfold contains in refl) not_marked
      sample-bytes

percent_decode-relax_from_example : percent_decode (relax_from sample) ≡ percent_decode sample
percent_decode-relax_from_example = percent_decode-relax_from sample sample-bytes

c_anb_match_iff_example : (c_anb_match (negsuc 1) (pos 7) 3 ≡ true) ↔ IsAnb (negsuc 1) (pos 7) 3
unfolding ◌-ℤ◌
c_anb_match_iff_example =
    c_anb_match_iff (negsuc 1) (pos 7) 3 (omega arith, omega arith) (omega arith)
      (omega arith, omega arith)

-- At the end of the range `n - b` wraps around, and a position of `n-9223372036854775808` is missed.
c_anb_match_far : c_anb_match (pos 1) (negsuc 9223372036854775807) 1 ≡ false
unfolding c_anb_match int64 ◌-ℤ◌ ◌/ℤ◌ ◌*ℤ◌ ◌+ℤ◌
c_anb_match_far = refl

text_holds_iff_example :
    (text_holds dash true (codes "EN") (codes "en-GB") ≡ true)
    ↔ IsTextMatch dash true (codes "EN") (codes "en-GB")
text_holds_iff_example = text_holds_iff dash true (codes "EN") (codes "en-GB")
