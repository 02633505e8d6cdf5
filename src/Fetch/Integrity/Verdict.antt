-- ===== src/Fetch/Integrity/Verdict.antt =====
-- Two consequences of how integrity metadata is taken apart.
use mathlib.Core.List.{append-nil, append_assoc}
use quickjs_runtime.Common.{
  Bool, Bool-cases, List, [], ap, arith, false, if◌then◌else◌, inl, inr, length, map, not, refl,
  some, true, ℕ, ◌%◌, ◌&&◌, ◌*◌, ◌++◌, ◌+◌, ◌/◌, ◌<◌, ◌==◌, ◌||◌, ◌∙◌, ◌∷◌, ◌≡◌,
}
use quickjs_runtime.Common.Bits.{holds_to, holds_to_sound}
use quickjs_runtime.Common.Bytes.{
  All, Bytes, IsByte, bytes_eq, bytes_eq_iff, codes, contains, find-append,
}
use quickjs_runtime.Common.Result.{err, ok}
use quickjs_runtime.Fetch.Base64.{
  base64_encode, digest_matches, letter, norm, plain_letter, strip_padding,
}
use quickjs_runtime.Fetch.Base64.RoundTrip.{encode_group_one, encode_group_three, encode_group_two}
use quickjs_runtime.Fetch.DataUrl.RoundTrip.{contains-append, drop_after, take-length}
use quickjs_runtime.Fetch.Integrity.{
  Digests, check_integrity, is_null_body_status, make_integrity, match_items, sha_digest,
  verify_item,
}
use quickjs_runtime.Fetch.Integrity.Source.{
  Delivers, IntegritySource, Reader, concat, read_all, read_all-verdict, read_guarded,
}
use quickjs_runtime.Fetch.Types.{blank, integrity_mismatch}

-- No digest is matched by a text with a blank in it.
contains-strip_padding : (s : Bytes) → contains b' ' (strip_padding s) ≡ contains b' ' s
unfolding contains strip_padding
contains-strip_padding [] = refl
contains-strip_padding (c ∷ cs) = ground (arith, contains-strip_padding cs)

contains-plain_letter : (s : Bytes) → contains b' ' (map plain_letter s) ≡ contains b' ' s
unfolding contains plain_letter
contains-plain_letter [] = refl
contains-plain_letter (c ∷ cs) = ground (arith, contains-plain_letter cs)

letter_table : holds_to (λ v. not (letter v == b' ')) 64 ≡ true
unfolding holds_to letter
letter_table = refl

letter-ne_blank : (v : ℕ) → v < 64 → (letter v == b' ') ≡ false
letter-ne_blank v h = ground (arith, holds_to_sound _ 64 v h letter_table)

contains-base64_encode : (s : Bytes) → All IsByte s → contains b' ' (base64_encode s) ≡ false
unfolding base64_encode contains
contains-base64_encode [] h = refl
contains-base64_encode (a ∷ []) (ha, _) = rw (encode_group_one a ha) (
    rw (letter-ne_blank (a / 4) (omega arith), letter-ne_blank (a % 4 * 16) (omega arith))
      (ground arith))
contains-base64_encode (a ∷ b ∷ []) (ha, (hb, _)) = rw (encode_group_two a b ha hb) (
    rw
      (
        letter-ne_blank (a / 4) (omega arith),
        letter-ne_blank (a % 4 * 16 + b / 16) (omega arith),
        letter-ne_blank (b % 16 * 4) (omega arith),
      )
      (ground arith))
contains-base64_encode (a ∷ b ∷ c ∷ rest) (ha, (hb, (hc, h))) =
    rw (encode_group_three a b c ha hb hc) (
      rw
        (
          letter-ne_blank (a / 4) (omega arith),
          letter-ne_blank (a % 4 * 16 + b / 16) (omega arith),
          letter-ne_blank (b % 16 * 4 + c / 64) (omega arith),
          letter-ne_blank (c % 64) (omega arith),
        )
        (contains-base64_encode rest h))

digest_matches-blank :
    (expected digest : Bytes)
    → All IsByte digest
    → contains b' ' expected ≡ true
    → digest_matches expected (base64_encode digest) ≡ false
unfolding digest_matches norm
digest_matches-blank expected digest h blank =
    elim (Bool-cases (digest_matches expected (base64_encode digest))) [
      | inr f ↦ f
      | inl t ↦
          let same = (bytes_eq_iff (norm expected) (norm (base64_encode digest))).0 t in
          let left : contains b' ' (norm expected) ≡ true =
            contains-strip_padding (map plain_letter expected)
            ∙ contains-plain_letter expected
            ∙ blank in
          let right : contains b' ' (norm (base64_encode digest)) ≡ false =
            contains-strip_padding (map plain_letter (base64_encode digest))
            ∙ contains-plain_letter (base64_encode digest)
            ∙ contains-base64_encode digest h in
          absurd (ground (arith, ap (contains b' ') same, left, right))
    ]

read_all-second_digest :
    {S : Type 0} (d : Digests) (read_upstream : Reader S) (s : IntegritySource S) {bs : List Bytes}
    (fuel : ℕ)
    → contains b' ' s.digest_b64 ≡ true
    → All IsByte (sha_digest d s.algo (s.seen ++ concat bs))
    → Delivers d read_upstream s.upstream bs
    → length bs < fuel
    → read_all d read_upstream fuel s [] ≡ some (err integrity_mismatch)
read_all-second_digest d read_upstream s {bs} fuel blank are_bytes g lt =
    read_all-verdict d read_upstream s [] fuel g lt
    ∙ rw (digest_matches-blank s.digest_b64 _ are_bytes blank)

abbrev pub is_supported : Bytes → Bool
is_supported algo =
    bytes_eq algo (codes "sha256")
    || bytes_eq algo (codes "sha384")
    || bytes_eq algo (codes "sha512")

-- The constructor keeps all that stands behind the first dash.
make_integrity-supported :
    (algo rest : Bytes)
    → contains b'-' algo ≡ false
    → is_supported algo ≡ true
    → make_integrity (algo ++ (b'-' ∷ rest)) ≡ ok (algo, rest)
unfolding make_integrity
make_integrity-supported algo rest no_dash known =
    rw (find-append b'-' algo rest no_dash, make_integrity)
      (rw (take-length algo (b'-' ∷ rest), drop_after algo b'-' rest) (ground (arith, known)))

-- Where integrity metadata lists a second digest behind a blank, whatever the digests are, the body of
-- the response is refused at its end, whatever its text is, also one that has the first digest. The
-- first algorithm is one of the three, its digest of the text is made of bytes, the source below ends,
-- and the turns are more than its blocks.
pub read_guarded-two_digests :
    {S : Type 0} (d : Digests) (read_upstream : Reader S) (upstream : S) {bs : List Bytes}
    (fuel : ℕ) (algo first second : Bytes)
    → contains b'-' algo ≡ false
    → is_supported algo ≡ true
    → All IsByte (sha_digest d algo (concat bs))
    → Delivers d read_upstream upstream bs
    → length bs < fuel
    → read_guarded d read_upstream fuel (algo ++ (b'-' ∷ (first ++ (b' ' ∷ second)))) upstream
      ≡ some (err integrity_mismatch)
unfolding read_guarded
read_guarded-two_digests d read_upstream upstream fuel algo first second no_dash known are_bytes g
      lt =
    let rest = first ++ (b' ' ∷ second) in
    rw (make_integrity-supported algo rest no_dash known, read_guarded)
      (read_all-second_digest d read_upstream
        (record { upstream = upstream; algo = algo; digest_b64 = rest; seen = [] }) fuel
        (contains_blank first second) are_bytes g lt)
  where
    or_true : (p : Bool) {q : Bool} → q ≡ true → (p || q) ≡ true
    or_true p h = ground arith

    contains_blank : (a b : Bytes) → contains b' ' (a ++ (b' ' ∷ b)) ≡ true
    contains_blank a b =
        contains-append b' ' a (b' ' ∷ b) ∙ or_true (contains b' ' a) (unfold contains in refl)

-- One item of the metadata, at the blank behind it.
match_items-item :
    (d : Digests) (text xs cur : Bytes) (matched : Bool)
    → contains b' ' xs ≡ false
    → match_items d text (xs ++ (b' ' ∷ [])) cur matched
      ≡ (if not (bytes_eq (cur ++ xs) []) && verify_item d text (cur ++ xs) then true else matched)
unfolding match_items contains
match_items-item d text [] cur matched h = rw append-nil
match_items-item d text (x ∷ xs) cur matched h =
    let e : (x == b' ') ≡ false = ground (arith, h) in
    let rest : contains b' ' xs ≡ false = ground (arith, h) in
    rw (e, match_items)
      (match_items-item d text xs (cur ++ (x ∷ [])) matched rest
        ∙ rw (append_assoc cur (x ∷ []) xs))

module _ (d : Digests) (algo text : Bytes) where
  unknown_digest :
      bytes_eq algo (codes "sha256") ≡ false
      → bytes_eq algo (codes "sha384") ≡ false
      → bytes_eq algo (codes "sha512") ≡ false
      → sha_digest d algo text ≡ []
  unfolding sha_digest
  unknown_digest h k l = rw (h, k, l)

  verify_unknown :
      contains b'-' algo ≡ false
      → sha_digest d algo text ≡ []
      → verify_item d text (algo ++ (b'-' ∷ [])) ≡ true
  unfolding verify_item
  verify_unknown no_dash e =
      rw (find-append b'-' algo [] no_dash, verify_item)
        (rw (take-length algo (b'-' ∷ []), drop_after algo b'-' [], e)
          (unfold digest_matches base64_encode norm strip_padding bytes_eq in refl))

-- An item of an unknown algorithm cannot be checked, and yet it is taken for a match if nothing
-- stands behind its dash: any text passes, where the status and the method allow a body.
check_integrity-unknown :
    (d : Digests) (algo text : Bytes) (status : ℕ) (method : Bytes)
    → contains b'-' algo ≡ false
    → contains b' ' algo ≡ false
    → bytes_eq algo (codes "sha256") ≡ false
    → bytes_eq algo (codes "sha384") ≡ false
    → bytes_eq algo (codes "sha512") ≡ false
    → (is_null_body_status status || bytes_eq method (codes "HEAD")) ≡ false
    → check_integrity d (algo ++ (b'-' ∷ [])) status method text ≡ ok tt
unfolding check_integrity
check_integrity-unknown d algo text status method no_dash no_blank h k l body =
    let hit = verify_unknown d algo text no_dash (unknown_digest d algo text h k l) in
    let full : bytes_eq (algo ++ (b'-' ∷ [])) [] ≡ false = ne_nil algo in
    let all =
      match_items-item d text (algo ++ (b'-' ∷ [])) [] false
        (contains-append b' ' algo (b'-' ∷ []) ∙ rw no_blank (unfold contains in refl)) in
    rw (full, body, all, full, hit)
  where
    ne_nil : (a : Bytes) → bytes_eq (a ++ (b'-' ∷ [])) [] ≡ false
    ne_nil [] = unfold bytes_eq in refl
    ne_nil (x ∷ a) = unfold bytes_eq in refl
