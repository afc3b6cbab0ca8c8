-- ===== src/Libc/Str/Span.antt =====
-- `strspn` and `strcspn` beside the longest front of characters in a set, and outside of it.
use simple_scc.Common.{
  ℕ, suc, ◌<◌, ◌≤◌, ◌≡◌, ◌⊎◌, inl, inr, refl, ap, ◌∙◌, arith, Bool, true, false, not, ◌||◌, some,
  List, [], ◌∷◌, ◌++◌, length, take, get_elem?, All, ◌==◌, if◌then◌else◌, Bool-cases,
}
use simple_scc.Common.Ub.{ok}
use simple_scc.Libc.Str.{num_chars, char_map, span, strspn, strcspn}

-- A string whose characters have a place in the maps.
abbrev pub IsAscii : List ℕ → Type 0
IsAscii s = All (λ c. (0 < c) × (c < num_chars)) s

unfoldable pub is_in : ℕ → List ℕ → Bool
is_in c [] = false
is_in c (a ∷ s) = c == a || is_in c s

or-false : (b : Bool) → (b || false) ≡ b
or-false true = refl
or-false false = refl

char_map-is_in :
    (s v : List ℕ) (map : ℕ → Bool)
    → IsAscii s
    → (f : ℕ → Bool) × (char_map (s ++ 0 ∷ v) map ≡ ok f) × ((c : ℕ) → f c ≡ (is_in c s || map c))
unfolding char_map is_in
char_map-is_in [] v map h = (map, refl, λ c. refl)
char_map-is_in (a ∷ s) v map h =
    let (f, e, k) = char_map-is_in s v (λ ch. if ch == a then true else map ch) h.1 in
    (f, ground arith, λ c. ground (arith, k c))

-- The first `n` characters of `s` pass the test, and the one behind them, if there is one, does not.
pub record IsSpan (test : ℕ → Bool) (s : List ℕ) (n : ℕ) : Type 0 where
  pub within : n ≤ length s
  pub all : All (λ c. test c ≡ true) (take n s)
  pub last : (n ≡ length s) ⊎ ((c : ℕ) × (get_elem? s n ≡ some c) × (test c ≡ false))

span-IsSpan :
    (test test' : ℕ → Bool) (s u : List ℕ)
    → IsAscii s
    → ((c : ℕ) → test c ≡ test' c)
    → (n : ℕ) × (span test (s ++ 0 ∷ u) ≡ ok n) × IsSpan test' s n
unfolding span
span-IsSpan test test' [] u h k =
    (0, refl, record { within = omega arith; all = tt; last = inl refl })
span-IsSpan test test' (a ∷ s) u h k = elim (Bool-cases (test' a)) [
  | inl e ↦
      let (n, r, p) = span-IsSpan test test' s u h.1 k in
      (
        suc n,
        ground (arith, k a),
        record { within = omega arith; all = (e, p.all); last = ground arith },
      )
  | inr e ↦
      (0, ground (arith, k a), record { within = omega arith; all = tt; last = inr (a, refl, e) })
]

strspn-IsSpan :
    (s u accept v : List ℕ)
    → IsAscii s
    → IsAscii accept
    → (n : ℕ) × (strspn (s ++ 0 ∷ u) (accept ++ 0 ∷ v) ≡ ok n) × IsSpan (λ c. is_in c accept) s n
unfolding strspn
strspn-IsSpan s u accept v hs ha =
    let (f, e, k) = char_map-is_in accept v (λ _. false) ha in
    let (n, r, p) = span-IsSpan f (λ c. is_in c accept) s u hs (λ c. k c ∙ or-false _) in
    (n, rw e r, p)

strcspn-IsSpan :
    (s u reject v : List ℕ)
    → IsAscii s
    → IsAscii reject
    → (n : ℕ) × (strcspn (s ++ 0 ∷ u) (reject ++ 0 ∷ v) ≡ ok n)
      × IsSpan (λ c. not (is_in c reject)) s n
unfolding strcspn
strcspn-IsSpan s u reject v hs hr =
    let (f, e, k) = char_map-is_in reject v (λ _. false) hr in
    let (n, r, p) =
      span-IsSpan (λ c. not (f c)) (λ c. not (is_in c reject)) s u hs
        (λ c. ap not (k c ∙ or-false _)) in
    (n, rw e r, p)

-- On a string and a set of characters, all below 128, `strspn` returns the length of the longest front
-- of the string in the set, and `strcspn` that of the longest front outside of the set.
pub strspn_lem :
    (s u set v : List ℕ)
    → IsAscii s
    → IsAscii set
    → (n k : ℕ) × (strspn (s ++ 0 ∷ u) (set ++ 0 ∷ v) ≡ ok n)
      × IsSpan (λ c. is_in c set) s n
      × (strcspn (s ++ 0 ∷ u) (set ++ 0 ∷ v) ≡ ok k)
      × IsSpan (λ c. not (is_in c set)) s k
strspn_lem s u set v hs ht =
    let (n, e, p) = strspn-IsSpan s u set v hs ht in
    let (k, f, q) = strcspn-IsSpan s u set v hs ht in (n, k, e, p, f, q)
