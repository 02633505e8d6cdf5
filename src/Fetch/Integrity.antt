-- ===== src/Fetch/Integrity.antt =====
-- include/fetch/types.hpp: `sha_digest` and `check_integrity`, and the `IntegritySource` of
-- include/fetch/middleware.hpp.
pub mod Source
pub mod Verdict
use quickjs_runtime.Common.{
  Bool, [], drop, false, if◌then◌else◌, none, not, some, take, true, ℕ, ◌&&◌, ◌++◌, ◌+◌, ◌==◌, ◌||◌,
  ◌∷◌,
}
use quickjs_runtime.Common.Bytes.{Bytes, bytes_eq, codes, find}
use quickjs_runtime.Common.Result.{Result, err, ok}
use quickjs_runtime.Fetch.Base64.{base64_encode, digest_matches}
use quickjs_runtime.Fetch.Types.{
  Error, integrity_algorithm, integrity_format, integrity_mismatch, integrity_null_body,
}

-- OpenSSL's digests, which are not part of the repository: a parameter.
pub record Digests : Type 0 where
  pub sha256 : Bytes → Bytes
  pub sha384 : Bytes → Bytes
  pub sha512 : Bytes → Bytes

-- An unknown algorithm has the empty digest.
unfoldable pub sha_digest : Digests → Bytes → Bytes → Bytes
sha_digest d algo text =
    if bytes_eq algo (codes "sha256")
    then d.sha256 text
    else if bytes_eq algo (codes "sha384")
    then d.sha384 text
    else if bytes_eq algo (codes "sha512")
    then d.sha512 text
    else []

unfoldable pub verify_item : Digests → Bytes → Bytes → Bool
verify_item d text item = elim (find b'-' item) [
  | none ↦ false
  | some dash ↦
      digest_matches (drop (dash + 1) item) (base64_encode (sha_digest d (take dash item) text))
]

-- The loop over `integrity + " "`, with `cur` and `matched`.
unfoldable pub match_items : Digests → Bytes → Bytes → Bytes → Bool → Bool
match_items d text [] cur matched = matched
match_items d text (c ∷ cs) cur matched =
    match_items d text cs (if c == b' ' then [] else cur ++ (c ∷ []))
      (if c == b' ' && (not (bytes_eq cur []) && verify_item d text cur) then true else matched)

abbrev pub is_null_body_status : ℕ → Bool
is_null_body_status s = s == 204 || s == 205 || s == 304

unfoldable pub check_integrity : Digests → Bytes → ℕ → Bytes → Bytes → Result Error (Unit {0})
check_integrity d expected status method text =
    if bytes_eq expected []
    then ok tt
    else if is_null_body_status status || bytes_eq method (codes "HEAD")
    then err integrity_null_body
    else if match_items d text (expected ++ (b' ' ∷ [])) [] false
    then ok tt
    else err integrity_mismatch

-- The constructor of `IntegritySource`: `algo_` and `digest_b64_`.
unfoldable pub make_integrity : Bytes → Result Error (Bytes × Bytes)
make_integrity expected = elim (find b'-' expected) [
  | none ↦ err integrity_format
  | some dash ↦
      let algo = take dash expected in
      if not (bytes_eq algo (codes "sha256"))
        && not (bytes_eq algo (codes "sha384"))
        && not (bytes_eq algo (codes "sha512"))
      then err integrity_algorithm
      else ok (algo, drop (dash + 1) expected)
]
