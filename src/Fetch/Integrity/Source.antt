-- ===== src/Fetch/Integrity/Source.antt =====
-- The reading side of `IntegritySource`, over any source below it.
use mathlib.Core.List.{append-nil, append_assoc}
use quickjs_runtime.Common.{
  List, Option, [], arith, if◌then◌else◌, length, none, not, refl, some, suc, zero, ℕ, ◌++◌, ◌<◌,
  ◌∙◌, ◌∷◌, ◌≡◌,
}
use quickjs_runtime.Common.Bytes.{Bytes, bytes_eq}
use quickjs_runtime.Common.Result.{Result, err, ok}
use quickjs_runtime.Fetch.Base64.{base64_encode, digest_matches, norm}
use quickjs_runtime.Fetch.Integrity.{Digests, make_integrity, sha_digest}
use quickjs_runtime.Fetch.Types.{Error, integrity_mismatch}

-- A body source as its state and `read`: a block, the end, or an exception.
abbrev pub Reader : Type 0 → Type 0
Reader S = S → Result Error (Option Bytes) × S

-- `mdctx_` is the text that was fed to the digest so far.
pub record IntegritySource (S : Type 0) : Type 0 where
  pub upstream : S
  pub algo : Bytes
  pub digest_b64 : Bytes
  pub seen : Bytes

module _ {S : Type 0} (d : Digests) (read_upstream : Reader S) where
  -- What `read` does with the block that the source below gave.
  after_block :
      IntegritySource S
      → Result Error (Option Bytes) × S
      → Result Error (Option Bytes) × IntegritySource S
  after_block s (err e, u) = (err e, record s { upstream = u })
  after_block s (ok none, u) =
      let b64 = base64_encode (sha_digest d s.algo s.seen) in
      if not (bytes_eq (norm b64) (norm s.digest_b64))
      then (err integrity_mismatch, record s { upstream = u })
      else (ok none, record s { upstream = u })
  after_block s (ok (some block), u) =
      (ok (some block), record s { upstream = u; seen = s.seen ++ block })

  unfoldable pub read : IntegritySource S → Result Error (Option Bytes) × IntegritySource S
  unfolding after_block
  read s = after_block s (read_upstream s.upstream)

  -- The body of the loop of `read_all`, `again` being the loop's next round.
  append_block :
      (IntegritySource S → Bytes → Option (Result Error Bytes))
      → Bytes
      → Result Error (Option Bytes) × IntegritySource S
      → Option (Result Error Bytes)
  append_block again out (err e, s) = some (err e)
  append_block again out (ok none, s) = some (ok out)
  append_block again out (ok (some block), s) = again s (out ++ block)

  -- `read_all` (include/fetch/body.hpp) with the rounds bounded by fuel; `none` is fuel that ran
  -- out.
  unfoldable pub read_all : ℕ → IntegritySource S → Bytes → Option (Result Error Bytes)
  unfolding append_block
  read_all zero s out = none
  read_all (suc fuel) s out = append_block (read_all fuel) out (read s)

  -- The constructor of `IntegritySource` on the metadata, and then `read_all` of what it makes.
  unfoldable pub read_guarded : ℕ → Bytes → S → Option (Result Error Bytes)
  read_guarded fuel expected upstream = elim (make_integrity expected) [
    | err e ↦ some (err e)
    | ok (algo, digest_b64) ↦
        read_all fuel
          (record { upstream = upstream; algo = algo; digest_b64 = digest_b64; seen = [] }) []
  ]

  -- The source below gives these blocks and then ends.
  pub data Delivers : S → List Bytes → Type 0 where
    ended : {u u' : S} → read_upstream u ≡ (ok none, u') → Delivers u []
    block :
        {u u' : S} {b : Bytes} {bs : List Bytes}
        → read_upstream u ≡ (ok (some b), u')
        → Delivers u' bs
        → Delivers u (b ∷ bs)

abbrev pub concat : List Bytes → Bytes
concat [] = []
concat (b ∷ bs) = b ++ concat bs

bytes_eq_sym : (a b : Bytes) → bytes_eq a b ≡ bytes_eq b a
unfolding bytes_eq
bytes_eq_sym [] [] = refl
bytes_eq_sym [] (y ∷ b) = refl
bytes_eq_sym (x ∷ a) [] = refl
bytes_eq_sym (x ∷ a) (y ∷ b) = ground (arith, bytes_eq_sym a b)

-- What a consumer gets who reads to the end: all the text, if it has the expected digest.
abbrev pub verdict : Digests → Bytes → Bytes → Bytes → Bytes → Result Error Bytes
verdict d algo expected text out =
    if digest_matches expected (base64_encode (sha_digest d algo text))
    then ok out
    else err integrity_mismatch

module _ {S : Type 0} (d : Digests) (read_upstream : Reader S) where
  verdict_end :
      (s : IntegritySource S) (u' : S) (fuel : ℕ) (out : Bytes)
      → read_upstream s.upstream ≡ (ok none, u')
      → read_all d read_upstream (suc fuel) s out ≡ some (verdict d s.algo s.digest_b64 s.seen out)
  unfolding read_all read digest_matches
  verdict_end s u' fuel out e =
      rw
        (
          e,
          read_all,
          read,
          bytes_eq_sym (norm s.digest_b64) (norm (base64_encode (sha_digest d s.algo s.seen))),
        )
        (ground arith)

  read_block :
      (s : IntegritySource S) (u' : S) (b : Bytes)
      → read_upstream s.upstream ≡ (ok (some b), u')
      → read d read_upstream s ≡ (ok (some b), record s { upstream = u'; seen = s.seen ++ b })
  unfolding read
  read_block s u' b e = rw (e, read)

  verdict_block :
      (s : IntegritySource S) (u' : S) (b : Bytes) (fuel : ℕ) (out : Bytes)
      → read_upstream s.upstream ≡ (ok (some b), u')
      → read_all d read_upstream (suc fuel) s out
        ≡ read_all d read_upstream fuel (record s { upstream = u'; seen = s.seen ++ b }) (out ++ b)
  unfolding read_all
  verdict_block s u' b fuel out e = rw (read_block s u' b e, read_all)

  -- Reading to the end takes one round for each block and one for the end. It gives all the text
  -- that the source below delivers if the text has the expected digest, and fails otherwise.
  pub read_all-verdict :
      (s : IntegritySource S) {bs : List Bytes} (out : Bytes) (fuel : ℕ)
      → Delivers d read_upstream s.upstream bs
      → length bs < fuel
      → read_all d read_upstream fuel s out
        ≡ some (verdict d s.algo s.digest_b64 (s.seen ++ concat bs) (out ++ concat bs))
  read_all-verdict s {bs} out fuel g lt = go bs s.upstream s.seen out fuel g lt
    where
      go :
          (bs : List Bytes) (u : S) (seen out : Bytes) (fuel : ℕ)
          → Delivers d read_upstream u bs
          → length bs < fuel
          → read_all d read_upstream fuel (record s { upstream = u; seen = seen }) out
            ≡ some (verdict d s.algo s.digest_b64 (seen ++ concat bs) (out ++ concat bs))
      go bs u seen out zero g lt = absurd (omega arith)
      go bs u seen out (suc fuel) (ended {u' = u'} e) lt =
          verdict_end (record s { upstream = u; seen = seen }) u' fuel out e
          ∙ rw (append-nil, append-nil)
      go bs u seen out (suc fuel) (block {u' = u'} {b} {bs = rest} e g) lt =
          verdict_block (record s { upstream = u; seen = seen }) u' b fuel out e
          ∙ go rest u' (seen ++ b) (out ++ b) fuel g (omega arith)
          ∙ rw (append_assoc seen b (concat rest), append_assoc out b (concat rest))
