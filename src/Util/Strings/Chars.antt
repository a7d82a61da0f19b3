-- ===== src/Util/Strings/Chars.antt =====
-- The text that a loop such as `for (; *s; s++)` visits.
use lq_os_lab.Base.{
  ℕ, zero, suc, ◌+◌, ◌<◌, ◌≡◌, ◌≢◌, sym, true, some, List, [], ◌∷◌, arith, ◌==◌, length, ap, ◌∙◌,
}
use lq_os_lab.Util.Strings.{CharPtr, max_string, chars_from, chars}
use lq_os_lab.Util.Strings.Lexical.{StandsAt}

chars-stop : (f : ℕ) (p : CharPtr) (i : ℕ) → p i ≡ 0 → chars_from (suc f) p i ≡ some []
unfolding chars_from
chars-stop f p i h = let e : (p i == 0) ≡ true = ground arith in ground arith

chars-next :
    (f : ℕ) (p : CharPtr) (i : ℕ) (t : List ℕ)
    → p i ≢ 0
    → chars_from f p (i + 1) ≡ some t
    → chars_from (suc f) p i ≡ some (p i ∷ t)
unfolding chars_from
chars-next f p i t h e = ground (arith, e)

pub chars_from-text :
    (f : ℕ) (p : CharPtr) (i : ℕ) (t : List ℕ)
    → StandsAt p i t
    → length t < f
    → chars_from f p i ≡ some t
chars_from-text zero p i t s h = absurd (omega arith)
chars_from-text (suc f) p i [] s h = chars-stop f p i s
chars_from-text (suc f) p i (c ∷ t) s h =
    chars-next f p i t (λ z. s.1 (sym s.0 ∙ z)) (chars_from-text f p (i + 1) t s.3 (omega arith))
    ∙ ap (λ (x : ℕ). some (x ∷ t)) s.0

pub chars-text :
    (p : CharPtr) (t : List ℕ) → StandsAt p 0 t → length t < max_string → chars p ≡ some t
unfolding chars
chars-text p t s h = chars_from-text max_string p 0 t s h
