-- ===== src/Web/Params/Form.antt =====
use quickjs_runtime.Common.{
  Bool, List, [], arith, drop, if_holds, if◌then◌else◌, refl, suc, take, true, zero, ℕ, ◌++◌, ◌==◌,
  ◌||◌, ◌∷◌, ◌≡◌,
}
use quickjs_runtime.Common.Bits.{holds_to, holds_to_sound}
use quickjs_runtime.Common.Bytes.{All, Bytes, IsByte, bytes_eq}
use quickjs_runtime.Fetch.Resolve.{is_hex, two_hex}
use quickjs_runtime.Web.BoostUrls.{is_form_text}
use quickjs_runtime.Web.Params.{
  Pairs, append, bytes_lt, encode_pair, encode_rest, erase, insert_sorted, set_loop, sort, to_query,
}
use quickjs_runtime.Web.Params.RoundTrip.{IsPairBytes}
use quickjs_runtime.Web.Utf8.{is_unreserved, percent_encode, percent_encode_byte}

-- What `to_query` writes is text that a query holds as it is, and what is read or changed stays bytes.
two_hex_append : (q s : Bytes) → two_hex q ≡ true → two_hex (q ++ s) ≡ true
unfolding two_hex
two_hex_append [] s h = cc
two_hex_append (x ∷ []) s h = cc
two_hex_append (x ∷ y ∷ q) s h = h

form_append :
    (q s : Bytes) → is_form_text q ≡ true → is_form_text s ≡ true → is_form_text (q ++ s) ≡ true
unfolding is_form_text
form_append [] s h k = k
form_append (c ∷ q) s h k = ground (arith, form_append q s, two_hex_append q s)

byte_table : holds_to (λ c. is_form_text (percent_encode_byte true c)) 256 ≡ true
unfolding holds_to is_form_text percent_encode_byte is_unreserved two_hex is_hex
byte_table = refl

encode_form : (s : Bytes) → All IsByte s → is_form_text (percent_encode s true) ≡ true
unfolding percent_encode
encode_form [] h = unfold is_form_text in refl
encode_form (c ∷ s) (hc, h) =
    form_append (percent_encode_byte true c) (percent_encode s true)
      (holds_to_sound _ 256 c hc byte_table) (encode_form s h)

separator_form :
    (c : ℕ) (s : Bytes)
    → (c == b'=' || c == b'&') ≡ true
    → is_form_text s ≡ true
    → is_form_text (c ∷ s) ≡ true
unfolding is_form_text
separator_form c s e h = ground arith

pair_form : (p : Bytes × Bytes) → IsPairBytes p → is_form_text (encode_pair p) ≡ true
pair_form p h =
    form_append (percent_encode p.0 true) (b'=' ∷ percent_encode p.1 true) (encode_form p.0 h.0)
      (separator_form b'=' (percent_encode p.1 true) refl (encode_form p.1 h.1))

rest_form : (ps : Pairs) → All IsPairBytes ps → is_form_text (encode_rest ps) ≡ true
unfolding encode_rest
rest_form [] h = unfold is_form_text in refl
rest_form (p ∷ ps) (hp, h) =
    separator_form b'&' (encode_pair p ++ encode_rest ps) refl
      (form_append (encode_pair p) (encode_rest ps) (pair_form p hp) (rest_form ps h))

pub to_query_form : (list : Pairs) → All IsPairBytes list → is_form_text (to_query list) ≡ true
to_query_form [] h = unfold is_form_text in refl
to_query_form (p ∷ ps) (hp, h) =
    form_append (encode_pair p) (encode_rest ps) (pair_form p hp) (rest_form ps h)

module _ {ℓ} {A : Type ℓ} (P : A → Type 0) where
  pub All-append : (l m : List A) → All P l → All P m → All P (l ++ m)
  All-append [] m h k = k
  All-append (x ∷ l) m (hx, h) k = (hx, All-append l m h k)

  pub All-take : (n : ℕ) (l : List A) → All P l → All P (take n l)
  All-take zero l h = tt
  All-take (suc n) [] h = tt
  All-take (suc n) (x ∷ l) (hx, h) = (hx, All-take n l h)

  pub All-drop : (n : ℕ) (l : List A) → All P l → All P (drop n l)
  All-drop zero l h = h
  All-drop (suc n) [] h = tt
  All-drop (suc n) (x ∷ l) (hx, h) = All-drop n l h

pub append_bytes :
    (n v : Bytes) (l : Pairs)
    → All IsByte n
    → All IsByte v
    → All IsPairBytes l
    → All IsPairBytes (append n v l)
append_bytes n v l hn hv h = All-append IsPairBytes l ((n, v) ∷ []) h ((hn, hv), tt)

pub erase_bytes : (n : Bytes) (l : Pairs) → All IsPairBytes l → All IsPairBytes (erase n l)
unfolding erase
erase_bytes n [] h = tt
erase_bytes n (p ∷ l) (hp, h) =
    if_holds (All IsPairBytes) (bytes_eq p.0 n) (erase n l) (p ∷ erase n l) (erase_bytes n l h)
      (hp, erase_bytes n l h)

insert_bytes :
    (p : Bytes × Bytes) (l : Pairs)
    → IsPairBytes p
    → All IsPairBytes l
    → All IsPairBytes (insert_sorted p l)
unfolding insert_sorted
insert_bytes p [] hp h = (hp, tt)
insert_bytes p (q ∷ l) hp (hq, h) =
    if_holds (All IsPairBytes) (bytes_lt q.0 p.0) (q ∷ insert_sorted p l) (p ∷ q ∷ l)
      (hq, insert_bytes p l hp h) (hp, (hq, h))

pub sort_bytes : (l : Pairs) → All IsPairBytes l → All IsPairBytes (sort l)
unfolding sort
sort_bytes [] h = tt
sort_bytes (p ∷ l) (hp, h) = insert_bytes p (sort l) hp (sort_bytes l h)

pub set_bytes :
    (n v : Bytes) (r : Bool) (l : Pairs)
    → All IsByte n
    → All IsByte v
    → All IsPairBytes l
    → All IsPairBytes (set_loop n v r l)
unfolding set_loop
set_bytes n v r [] hn hv h = if_holds (All IsPairBytes) r [] ((n, v) ∷ []) tt ((hn, hv), tt)
set_bytes n v r (p ∷ l) hn hv (hp, h) =
    let later = set_bytes n v true l hn hv h in
    if_holds (All IsPairBytes) (bytes_eq p.0 n)
      (if r then set_loop n v true l else (p.0, v) ∷ set_loop n v true l) (p ∷ set_loop n v r l)
      (if_holds (All IsPairBytes) r (set_loop n v true l) ((p.0, v) ∷ set_loop n v true l) later
        ((hp.0, hv), later))
      (hp, set_bytes n v r l hn hv h)
