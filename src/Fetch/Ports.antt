-- ===== src/Fetch/Ports.antt =====
-- include/fetch/url_check.hpp: the ports that no request may go to.
use quickjs_runtime.Common.{
  Bool, Bool-cases, List, Option, Option-cases, [], arith, false, if◌then◌else◌, inl, inr, leb,
  none, not, refl, some, true, ℕ, ◌&&◌, ◌*◌, ◌+◌, ◌-◌, ◌<◌, ◌==◌, ◌^◌, ◌∷◌, ◌≡◌, ◌≢◌, ◌⊎◌,
}
use quickjs_runtime.Common.Bytes.{All, Bytes, between}
use quickjs_runtime.Common.Result.{Result, err, ok}
use quickjs_runtime.Fetch.Types.{Error, blocked_port}
use quickjs_runtime.Fetch.Urls.{Urls}

-- `kBad`.
abbrev pub blocked_ports : List ℕ
blocked_ports =
    0 ∷ 1 ∷ 7 ∷ 9 ∷ 11 ∷ 13 ∷ 15 ∷ 17 ∷ 19 ∷ 20 ∷ 21 ∷ 22 ∷ 23 ∷ 25 ∷ 37 ∷ 42 ∷ 43 ∷ 53 ∷ 69 ∷ 77
    ∷ 79 ∷ 87 ∷ 95 ∷ 101 ∷ 102 ∷ 103 ∷ 104 ∷ 109 ∷ 110 ∷ 111 ∷ 113 ∷ 115 ∷ 117 ∷ 119 ∷ 123 ∷ 135
    ∷ 137 ∷ 139 ∷ 143 ∷ 161 ∷ 179 ∷ 389 ∷ 427 ∷ 465 ∷ 512 ∷ 513 ∷ 514 ∷ 515 ∷ 526 ∷ 530 ∷ 531 ∷ 532
    ∷ 540 ∷ 548 ∷ 554 ∷ 556 ∷ 563 ∷ 587 ∷ 601 ∷ 636 ∷ 989 ∷ 990 ∷ 993 ∷ 995 ∷ 1719 ∷ 1720 ∷ 1723
    ∷ 2049 ∷ 3659 ∷ 4045 ∷ 4190 ∷ 5060 ∷ 5061 ∷ 6000 ∷ 6566 ∷ 6665 ∷ 6666 ∷ 6667 ∷ 6668 ∷ 6669
    ∷ 6679 ∷ 6697 ∷ 10080 ∷ []

unfoldable pub is_blocked_in : List ℕ → ℕ → Bool
is_blocked_in [] p = false
is_blocked_in (b ∷ bs) p = if p == b then true else is_blocked_in bs p

unfoldable pub is_blocked_port : ℕ → Bool
is_blocked_port = is_blocked_in blocked_ports

abbrev pub is_digit : ℕ → Bool
is_digit = between b'0' b'9'

unfoldable pub all_digits : Bytes → Bool
all_digits [] = true
all_digits (c ∷ cs) = is_digit c && all_digits cs

-- The number that decimal digits stand for.
unfoldable pub decimal : ℕ → Bytes → ℕ
decimal n [] = n
decimal n (c ∷ cs) = decimal (n * 10 + (c - b'0')) cs

-- `std::stoi` of a string of digits; `none` is `std::out_of_range`.
unfoldable pub stoi : Bytes → Option ℕ
stoi ps = let n = decimal 0 ps in if leb n (2 ^ 31 - 1) then some n else none

-- The body of `blocked_port_of` on the port's text; `none` is -1.
unfoldable pub blocked_text : Bytes → Option ℕ
blocked_text [] = none
blocked_text (c ∷ cs) =
    if all_digits (c ∷ cs)
    then elim (stoi (c ∷ cs)) [ none ↦ none | some p ↦ if is_blocked_port p then some p else none ]
    else none

unfoldable pub blocked_port_of : Urls → Bytes → Option ℕ
blocked_port_of b url = elim (b.parse_uri_reference url) [
  | none ↦ none
  | some u ↦ if not (b.has_port u) then none else blocked_text (b.port u)
]

unfoldable pub check_url_ports : Urls → Bytes → Result Error (Unit {0})
check_url_ports b url = elim (blocked_port_of b url) [
  | none ↦ ok tt
  | some p ↦ err (blocked_port p)
]

-- No listed port is too long for an `int`.
blocked_small :
    (bs : List ℕ) (p : ℕ) → All (λ b. b < 65536) bs → is_blocked_in bs p ≡ true → p < 65536
unfolding is_blocked_in
blocked_small [] p h e = cc
blocked_small (b ∷ bs) p h e = ground (arith, blocked_small bs p h.1)

blocked_port-lt : (p : ℕ) → is_blocked_port p ≡ true → p < 65536
unfolding is_blocked_port
blocked_port-lt p e = blocked_small blocked_ports p (omega arith) e

-- For a port written in digits the check decides by the number that they stand for, with leading
-- zeros and however long: the overflow of `stoi` hides no blocked port.
pub blocked_text-decimal :
    (ps : Bytes)
    → ps ≢ []
    → all_digits ps ≡ true
    → blocked_text ps ≡ (if is_blocked_port (decimal 0 ps) then some (decimal 0 ps) else none)
unfolding blocked_text stoi
blocked_text-decimal [] ne d = absurd (ne refl)
blocked_text-decimal (c ∷ cs) ne d = elim (Bool-cases (is_blocked_port (decimal 0 (c ∷ cs)))) [
  | inl e ↦
      let small : leb (decimal 0 (c ∷ cs)) (2 ^ 31 - 1) ≡ true =
        ground (arith, blocked_port-lt (decimal 0 (c ∷ cs)) e) in
      rw (d, small, e)
  | inr e ↦ elim (Bool-cases (leb (decimal 0 (c ∷ cs)) (2 ^ 31 - 1))) [
    | inl t ↦ rw (d, t, e)
    | inr f ↦ rw (d, f, e)
  ]
]

-- The check passes where no blocked port is found, and else names the port in its error.
pub check_url_ports_cases :
    (b : Urls) (url : Bytes)
    → ((blocked_port_of b url ≡ none) × (check_url_ports b url ≡ ok tt))
      ⊎ ((p : ℕ) × (blocked_port_of b url ≡ some p)
          × (check_url_ports b url ≡ err (blocked_port p)))
unfolding check_url_ports
check_url_ports_cases b url = elim (Option-cases (blocked_port_of b url)) [
  | inl e ↦ inl (e, rw (e, check_url_ports))
  | inr (p, e) ↦ inr (p, e, rw (e, check_url_ports))
]
