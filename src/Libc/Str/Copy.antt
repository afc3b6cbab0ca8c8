-- ===== src/Libc/Str/Copy.antt =====
-- `strcpy`, `strcat` and `strlen` on terminated strings.
use simple_scc.Common.{
  ℕ, suc, ◌+◌, ◌≤◌, ◌<◌, ◌≡◌, refl, ap, ◌∙◌, arith, List, [], ◌∷◌, ◌++◌, length, drop,
}
use simple_scc.Common.Ub.{ok}
use simple_scc.Libc.Str.{strcpy, strcat, strlen}
use simple_scc.Libc.Str.Compare.{IsText}

strcpy-room :
    (dst s u : List ℕ)
    → IsText s
    → length s < length dst
    → strcpy dst (s ++ 0 ∷ u) ≡ ok (s ++ 0 ∷ drop (suc (length s)) dst)
unfolding strcpy
strcpy-room [] s u hs h = absurd (omega arith)
strcpy-room (d ∷ dst) [] u hs h = refl
strcpy-room (d ∷ dst) (a ∷ s) u hs h = ground (arith, strcpy-room dst s u hs.1 (omega arith))

strlen-text : (s u : List ℕ) → IsText s → strlen (s ++ 0 ∷ u) ≡ ok (length s)
unfolding strlen
strlen-text [] u hs = refl
strlen-text (a ∷ s) u hs = ground (arith, strlen-text s u hs.1)

-- If the object of `t` has room for both strings and a terminator, `strcat` leaves their
-- concatenation with a terminator in it, and the rest of the object as it was; `strlen` of that is
-- the sum of the lengths.
pub strcat_lem :
    (t w s u : List ℕ)
    → IsText t
    → IsText s
    → length s ≤ length w
    → (strcat (t ++ 0 ∷ w) (s ++ 0 ∷ u) ≡ ok ((t ++ s) ++ 0 ∷ drop (length s) w))
      × (strlen ((t ++ s) ++ 0 ∷ drop (length s) w) ≡ ok (length t + length s))
unfolding strcat strlen
strcat_lem [] w s u ht hs h = (
  strcpy-room (0 ∷ w) s u hs (omega arith),
  strlen-text s (drop (length s) w) hs ∙ ap ok (omega arith),
)
strcat_lem (a ∷ t) w s u ht hs h =
    let (e, n) = strcat_lem t w s u ht.1 hs h in (ground arith, ground arith)
