-- ===== src/Util/Strings/Lexical.antt =====
-- `strlen` and `strcmp` against the texts that their arguments hold.
use lq_os_lab.Base.{
  Bool, true, false, ◌&&◌, ℕ, zero, suc, ◌+◌, ◌-◌, ◌%◌, ◌^◌, ◌⊎◌, ◌<◌, ◌≡◌, ◌≢◌, refl, some, List,
  [], ◌∷◌, ◌==◌, arith, length, ltb, if◌then◌else◌, Bool-cases, inl, inr, ap, ◌∙◌, sym, ◌↔◌,
}
use lq_os_lab.Base.Memory.{u32_mod}
use lq_os_lab.Util.Strings.{CharPtr, max_string, strlen_loop, strlen, strcmp_loop, strcmp}

-- The string `t` stands at `p + i`, ended by a NUL.
abbrev pub StandsAt : CharPtr → ℕ → List ℕ → Type 0
StandsAt p i [] = p i ≡ 0
StandsAt p i (c ∷ t) = (p i ≡ c) × (c ≢ 0) × (c < 256) × StandsAt p (i + 1) t

-- Equality of texts.
unfoldable pub same_text : List ℕ → List ℕ → Bool
same_text [] [] = true
same_text [] (d ∷ u) = false
same_text (c ∷ t) [] = false
same_text (c ∷ t) (d ∷ u) = (c == d) && same_text t u

pub same_text-eq : (t u : List ℕ) → same_text t u ≡ true → t ≡ u
unfolding same_text
same_text-eq [] [] h = refl
same_text-eq [] (d ∷ u) h = cc
same_text-eq (c ∷ t) [] h = cc
same_text-eq (c ∷ t) (d ∷ u) h =
    let first : c ≡ d = ground arith in
    let rest : same_text t u ≡ true = ground arith in λ i. first i ∷ same_text-eq t u rest i

pub same_text_self : (t : List ℕ) → same_text t t ≡ true
unfolding same_text
same_text_self [] = refl
same_text_self (c ∷ t) = ground (arith, same_text_self t)

pub data Order : Type 0 where
  less equal greater : Order

-- The lexical order of texts, by unsigned bytes.
unfoldable pub lexical : List ℕ → List ℕ → Order
lexical [] [] = equal
lexical [] (d ∷ u) = less
lexical (c ∷ t) [] = greater
lexical (c ∷ t) (d ∷ u) =
    let rest = lexical t u in if ltb c d then less else if ltb d c then greater else rest

-- The sign of an `int`, given as its 32 bits.
unfoldable pub sign : ℕ → Order
sign d = if d == 0 then equal else if ltb d (2 ^ 31) then greater else less

strlen-stop : (f : ℕ) (p : CharPtr) (i : ℕ) → p i ≡ 0 → strlen_loop (suc f) p i ≡ some i
unfolding strlen_loop
strlen-stop f p i h = ground arith

strlen-next :
    (f : ℕ) (p : CharPtr) (i : ℕ) → p i ≢ 0 → strlen_loop (suc f) p i ≡ strlen_loop f p (i + 1)
unfolding strlen_loop
strlen-next f p i h = ground arith

strlen_loop-length :
    (f : ℕ) (p : CharPtr) (i : ℕ) (t : List ℕ)
    → StandsAt p i t
    → length t < f
    → strlen_loop f p i ≡ some (i + length t)
strlen_loop-length zero p i t s h = absurd (omega arith)
strlen_loop-length (suc f) p i [] s h = strlen-stop f p i s ∙ ap some (omega arith)
strlen_loop-length (suc f) p i (c ∷ t) s h =
    strlen-next f p i (λ z. s.1 (sym s.0 ∙ z))
    ∙ strlen_loop-length f p (i + 1) t s.3 (omega arith)
    ∙ ap some (omega arith)

-- `strlen` terminates on a string in the address space and returns its length.
pub strlen-length :
    (p : CharPtr) (t : List ℕ) → StandsAt p 0 t → length t < max_string → strlen p ≡ some (length t)
unfolding strlen
strlen-length p t s h = strlen_loop-length max_string p 0 t s h ∙ ap some (omega arith)

-- The difference of two bytes has the sign of their order.
sign-difference :
    (c d : ℕ)
    → c < 256
    → d < 256
    → sign ((c + u32_mod - d) % u32_mod)
      ≡ (if ltb c d then less else if ltb d c then greater else equal)
unfolding sign
sign-difference c d h k = ground arith

strcmp-stop :
    (f : ℕ) (p q : CharPtr) (i : ℕ)
    → (p i ≡ 0) ⊎ (p i ≢ q i)
    → strcmp_loop (suc f) p q i ≡ some ((p i + u32_mod - q i) % u32_mod)
unfolding strcmp_loop
strcmp-stop f p q i h = ground arith

strcmp-next :
    (f : ℕ) (p q : CharPtr) (i : ℕ)
    → p i ≢ 0
    → p i ≡ q i
    → strcmp_loop (suc f) p q i ≡ strcmp_loop f p q (i + 1)
unfolding strcmp_loop
strcmp-next f p q i h e = ground arith

-- What the loop at `i` returns, against the order `o`.
abbrev Compares : ℕ → CharPtr → CharPtr → ℕ → Order → Type 0
Compares f p q i o = (d : ℕ) × (strcmp_loop f p q i ≡ some d) × (sign d ≡ o)

-- The loop ends at two bytes that differ or are NULs.
stops :
    (f : ℕ) (p q : CharPtr) (i c d : ℕ) (o : Order)
    → p i ≡ c
    → q i ≡ d
    → c < 256
    → d < 256
    → (c ≡ 0) ⊎ (c ≢ d)
    → (if ltb c d then less else if ltb d c then greater else equal) ≡ o
    → Compares (suc f) p q i o
stops f p q i c d o e e' h k end order = (
  (p i + u32_mod - q i) % u32_mod,
  strcmp-stop f p q i (rw (e, e') end),
  rw (e, e') (sign-difference c d h k ∙ order),
)

strcmp_loop-lexical :
    (f : ℕ) (p q : CharPtr) (i : ℕ) (t u : List ℕ)
    → StandsAt p i t
    → StandsAt q i u
    → length t < f
    → Compares f p q i (lexical t u)
unfolding lexical
strcmp_loop-lexical zero p q i t u s r h = absurd (omega arith)
strcmp_loop-lexical (suc f) p q i [] [] s r h =
    stops f p q i 0 0 equal s r (omega arith) (omega arith) (inl refl) refl
strcmp_loop-lexical (suc f) p q i [] (d ∷ u) s r h =
    stops f p q i 0 d less s r.0 (omega arith) r.2 (inl refl) (ground (arith, r.1))
strcmp_loop-lexical (suc f) p q i (c ∷ t) [] s r h =
    stops f p q i c 0 greater s.0 r s.2 (omega arith) (inr s.1) (ground (arith, s.1))
strcmp_loop-lexical (suc f) p q i (c ∷ t) (d ∷ u) s r h = elim (Bool-cases (c == d)) [
  | inl same ↦
      let (x, e, o) = strcmp_loop-lexical f p q (i + 1) t u s.3 r.3 (omega arith) in
      let order : (if ltb c d then less else if ltb d c then greater else lexical t u)
          ≡ lexical t u =
        ground arith in
      (
        x,
        strcmp-next f p q i (λ z. s.1 (sym s.0 ∙ z)) (ground (arith, s.0, r.0)) ∙ e,
        o ∙ sym order,
      )
  | inr other ↦ stops f p q i c d _ s.0 r.0 s.2 r.2 (inr (ground arith)) (ground arith)
]

sign-zero : (d : ℕ) → sign d ≡ equal → d ≡ 0
unfolding sign
sign-zero d h = ground arith

zero-sign : sign 0 ≡ equal
unfolding sign
zero-sign = refl

lexical-equal : (t u : List ℕ) → lexical t u ≡ equal → t ≡ u
unfolding lexical
lexical-equal [] [] h = refl
lexical-equal [] (d ∷ u) h = cc
lexical-equal (c ∷ t) [] h = cc
lexical-equal (c ∷ t) (d ∷ u) h =
    let rest : lexical t u ≡ equal = ground arith in
    let first : c ≡ d = ground arith in λ i. first i ∷ lexical-equal t u rest i

lexical_self : (t : List ℕ) → lexical t t ≡ equal
unfolding lexical
lexical_self [] = refl
lexical_self (c ∷ t) = ground (arith, lexical_self t)

-- `strcmp` terminates on two strings in the address space, and the sign of the `int` that it
-- returns is the lexical order of the two texts, by unsigned bytes: zero exactly for equal texts.
pub strcmp-lexical :
    (p q : CharPtr) (t u : List ℕ)
    → StandsAt p 0 t
    → StandsAt q 0 u
    → length t < max_string
    → (d : ℕ) × (strcmp p q ≡ some d) × (sign d ≡ lexical t u) × ((d ≡ 0) ↔ (t ≡ u))
unfolding strcmp
strcmp-lexical p q t u s r h =
    let (d, e, o) = strcmp_loop-lexical max_string p q 0 t u s r h in
    (
      d,
      e,
      o,
      (
        λ z. lexical-equal t u (sym o ∙ ap sign z ∙ zero-sign),
        λ same. sign-zero d (o ∙ ap (lexical t) (sym same) ∙ lexical_self t),
      ),
    )
