-- ===== src/Web/FormData/Disposition.antt =====
use quickjs_runtime.Common.{
  Bool-cases, [], ap, arith, false, inl, inr, refl, ℕ, ◌++◌, ◌==◌, ◌||◌, ◌∙◌, ◌∷◌, ◌≡◌,
}
use quickjs_runtime.Common.Bytes.{Bytes, codes, starts_with}
use quickjs_runtime.Web.FormData.{
  Entry, disposition_of, escape, filename_part, find_text, parse_disposition_param, read_quoted,
}

-- The name of an entry is read back from the header that is written for it.
read_quoted_plain :
    (c : ℕ) (s : Bytes) → (c == 34 || c == 92) ≡ false → read_quoted (c ∷ s) ≡ c ∷ read_quoted s
unfolding read_quoted
read_quoted_plain c [] h = ground arith
read_quoted_plain c (d ∷ s) h = ground arith

read_quoted_escaped : (c : ℕ) (s : Bytes) → read_quoted (92 ∷ c ∷ s) ≡ c ∷ read_quoted s
unfolding read_quoted
read_quoted_escaped c s = refl

read_quoted_end : (rest : Bytes) → read_quoted (34 ∷ rest) ≡ []
unfolding read_quoted
read_quoted_end [] = refl
read_quoted_end (r ∷ rest) = refl

read_quoted-escape : (s rest : Bytes) → read_quoted (escape s ++ (34 ∷ rest)) ≡ s
unfolding escape
read_quoted-escape [] rest = read_quoted_end rest
read_quoted-escape (c ∷ s) rest =
    let ih = read_quoted-escape s rest in
    elim (Bool-cases (c == 34 || c == 92)) [
      | inl u ↦ rw u (read_quoted_escaped c (escape s ++ (34 ∷ rest)) ∙ ap (◌∷◌ c) ih)
      | inr u ↦ rw u (read_quoted_plain c (escape s ++ (34 ∷ rest)) u ∙ ap (◌∷◌ c) ih)
    ]

-- What is written for a name with any quotation marks, backslashes and semicolons is read back, as long
-- as the header is whole: the parser cuts it at a line end before.
pub parse_disposition_param-name :
    (e : Entry) → parse_disposition_param (disposition_of e) (codes "name") ≡ e.name
unfolding parse_disposition_param find_text starts_with
parse_disposition_param-name e = read_quoted-escape e.name (filename_part e)
