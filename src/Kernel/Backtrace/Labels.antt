-- ===== src/Kernel/Backtrace/Labels.antt =====
-- What a backtrace prints for one return address.
use lq_os_lab.Base.{
  ℕ, zero, suc, ◌+◌, ◌/◌, ◌%◌, ◌^◌, ◌<◌, ◌≡◌, ◌≢◌, refl, Bool, true, false, not, ◌&&◌, Option, none,
  some, List, [], ◌∷◌, ◌++◌, arith, ltb, ◌==◌, if◌then◌else◌, length, length-append, get_or,
  Bool-cases, inl, inr, text, ◌↔◌, ap, ◌∙◌,
}
use lq_os_lab.Base.Memory.{u64_mod}
use lq_os_lab.Util.Print.{hex_digit, num, str, long_arg}
use lq_os_lab.Util.Print.Spec.{
  hex_text, render, step_piece, directive_piece, hex_piece, string_piece,
}
use lq_os_lab.Util.Strings.{CharPtr, max_string, literal, chars}
use lq_os_lab.Util.Strings.Chars.{chars_from-text}
use lq_os_lab.Util.Strings.Lexical.{
  StandsAt, same_text, same_text-eq, same_text_self, strcmp-lexical,
}
use lq_os_lab.World.{World, Run, ok, pure, ◌>>◌}
use lq_os_lab.Spike.Utils.{sprint}
use lq_os_lab.Spike.Utils.Console.{logged, line, sprint-line}
use lq_os_lab.Kernel.Backtrace.{find_symbol_name, name_at, name_is, print_name, report_name, report}

-- What becomes of a frame: the walk stops at it, it is left out, or it has a line.
pub data Label : Type 0 where
  stop hidden : Label
  shown : List ℕ → Label

unfoldable pub name_label : List ℕ → Label
name_label t =
    if same_text t (text "main")
    then stop
    else if same_text t (text "print_backtrace")
    then hidden
    else if same_text t (text "do_user_call")
    then hidden
    else shown (t ++ text "\n")

-- The round's result for a label.
abbrev pub outcome : Label → World → Run (Option Bool)
outcome stop w = ok none w
outcome hidden w = ok (some false) w
outcome (shown t) w = ok (some true) (logged (line t) w)

-- No NUL and nothing wider than a byte.
unfoldable are_chars : List ℕ → Bool
are_chars [] = true
are_chars (c ∷ t) = not (c == 0) && (ltb c 256 && are_chars t)

stands :
    (p : CharPtr) (i : ℕ) (s : List ℕ)
    → are_chars s ≡ true
    → ((j : ℕ) → p (i + j) ≡ get_or s j 0)
    → StandsAt p i s
unfolding are_chars
stands p i [] c h = let z : i ≡ i + 0 = omega arith in ap p z ∙ h 0
stands p i (x ∷ s) c h = (
  (let z : i ≡ i + 0 = omega arith in ap p z ∙ h 0),
  ground arith,
  ground arith,
  stands p (i + 1) s (ground arith)
      (λ j. let z : i + 1 + j ≡ i + suc j = omega arith in ap p z ∙ h (suc j)),
)

literal-StandsAt : (s : List ℕ) → are_chars s ≡ true → StandsAt (literal s) 0 s
literal-StandsAt s c =
    stands (literal s) 0 s c (λ j. let z : 0 + j ≡ j = omega arith in ap (literal s) z)

-- The comparison of a name with a literal.
name_is-same :
    (p : CharPtr) (t u : List ℕ) (w : World)
    → StandsAt p 0 t
    → are_chars u ≡ true
    → length t < max_string
    → name_is p u w ≡ ok (same_text t u) w
unfolding name_is
name_is-same p t u w s c h =
    let (d, e, o, eq) = strcmp-lexical p (literal u) t u s (literal-StandsAt u c) h in
    rw e (ap (λ (b : Bool). ok b w) (agree d eq))
  where
    agree : (d : ℕ) → (d ≡ 0) ↔ (t ≡ u) → (d == 0) ≡ same_text t u
    agree d eq = elim (Bool-cases (same_text t u)) [
      | inl same ↦ let z : d ≡ 0 = eq.1 (same_text-eq t u same) in rw same (ground arith)
      | inr other ↦
          let n : d ≢ 0 =
            λ z. let same : same_text t u ≡ true = rw (eq.0 z) (same_text_self u) in cc in
          rw other (ground arith)
    ]

print_name-line :
    (p : CharPtr) (t : List ℕ) (w : World)
    → StandsAt p 0 t
    → length t < 2 ^ 30
    → print_name p w ≡ ok tt (logged (line (t ++ text "\n")) w)
unfolding print_name chars
print_name-line p t w s h =
    let short : length (t ++ text "\n") < 2 ^ 31 = omega (arith, length-append t (text "\n")) in
    rw (chars_from-text max_string p 0 t s (omega arith))
      (sprint-line (text "%s\n") (str t ∷ []) (t ++ text "\n") w rendered short)
  where
    rendered : render (text "%s\n") false false (str t ∷ []) ≡ some (t ++ text "\n")
    rendered = unfold render step_piece directive_piece string_piece in refl

-- The line for an address.
unfoldable pub address_line : ℕ → List ℕ
address_line r = text "0x" ++ (hex_text 16 (r % u64_mod) ++ text "\n")

render-address : (r : ℕ) → render (text "0x%lx\n") false false (num r ∷ []) ≡ some (address_line r)
unfolding render step_piece directive_piece hex_piece long_arg address_line
render-address r = refl

length-hex_text : (k v : ℕ) → length (hex_text k v) ≡ k
unfolding hex_text
length-hex_text zero v = refl
length-hex_text (suc k) v = omega (
  arith,
  length-append (hex_text k (v / 16)) (hex_digit (v % 16) ∷ []),
  length-hex_text k (v / 16),
)

-- What is done with the result of the search.
abbrev reported : ℕ → World → Option ℕ → Run (Option Bool)
reported r w none = (sprint (text "0x%lx\n") (num r ∷ []) >> pure (some true)) w
reported r w (some off) = report_name (name_at w.user_app off) w

report-reported : (r : ℕ) (w : World) → report r w ≡ reported r w (find_symbol_name w.user_app r)
unfolding report
report-reported r w = by_result (find_symbol_name w.user_app r)
  where
    by_result :
        (o : Option ℕ)
        → elim o [
          | none ↦ (sprint (text "0x%lx\n") (num r ∷ []) >> pure (some true)) w
          | some off ↦ report_name (name_at w.user_app off) w
        ]
          ≡ reported r w o
    by_result none = refl
    by_result (some off) = refl

-- A return address of no known function is printed in hexadecimal, in 16 digits.
pub report-address :
    (r : ℕ) (w : World)
    → find_symbol_name w.user_app r ≡ none
    → report r w ≡ outcome (shown (address_line r)) w
report-address r w e =
    report-reported r w
    ∙ ap (reported r w) e
    ∙ rw (sprint-line (text "0x%lx\n") (num r ∷ []) (address_line r) w (render-address r) short)
        refl
  where
    short : length (address_line r) < 2 ^ 31
    short =
        unfold address_line in
        omega (
          arith,
          length-append (hex_text 16 (r % u64_mod)) (text "\n"),
          length-hex_text 16 (r % u64_mod),
        )

report_name-label :
    (p : CharPtr) (t : List ℕ) (w : World)
    → StandsAt p 0 t
    → length t < 2 ^ 30
    → report_name p w ≡ outcome (name_label t) w
unfolding report_name name_label
report_name-label p t w s h =
    let n1 = name_is-same p t (text "main") w s (unfold are_chars in refl) (omega arith) in
    let n2 =
      name_is-same p t (text "print_backtrace") w s (unfold are_chars in refl) (omega arith) in
    let n3 = name_is-same p t (text "do_user_call") w s (unfold are_chars in refl) (omega arith) in
    rw n1 (elim (Bool-cases (same_text t (text "main"))) [
      | inl main ↦ rw main refl
      | inr other ↦ rw other (
          rw n2 (elim (Bool-cases (same_text t (text "print_backtrace"))) [
            | inl own ↦ rw own refl
            | inr caller ↦ rw caller (
                rw n3 (elim (Bool-cases (same_text t (text "do_user_call"))) [
                  | inl call ↦ rw call refl
                  | inr rest ↦ rw rest (rw (print_name-line p t w s h) refl)
                ]))
          ]))
    ])

-- A return address in a function whose name is a string of the table, shorter than 2 ^ 30, stops
-- the walk if the name is `main`, is left out for `print_backtrace` and `do_user_call`, and
-- prints any other name on a line.
pub report-named :
    (r off : ℕ) (t : List ℕ) (w : World)
    → find_symbol_name w.user_app r ≡ some off
    → StandsAt (name_at w.user_app off) 0 t
    → length t < 2 ^ 30
    → report r w ≡ outcome (name_label t) w
report-named r off t w e s h =
    report-reported r w ∙ ap (reported r w) e ∙ report_name-label (name_at w.user_app off) t w s h
