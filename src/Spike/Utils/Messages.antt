-- ===== src/Spike/Utils/Messages.antt =====
-- The kernel's messages that print one `%d`: their text exists, whatever the argument.
use lq_os_lab.Base.{
  ℕ, ◌+◌, ◌-◌, ◌%◌, ◌^◌, ◌≡◌, true, false, some, List, [], ◌∷◌, ◌++◌, arith, ltb, ◌==◌,
  if◌then◌else◌, text, length, ◌≤◌, ◌<◌, Bool-cases, inl, inr,
}
use lq_os_lab.Util.Print.Decimal.{length-decimal_text}
use lq_os_lab.Base.Memory.{u64_mod, u32_mod}
use lq_os_lab.Util.Print.{num, int_arg, long_arg}
use lq_os_lab.Util.Print.Spec.{
  render, step_piece, directive_piece, decimal_piece, signed_text, decimal_text,
}

-- The text of an `int`.
pub int_text : ℕ → List ℕ
int_text w =
    if ltb (w % u32_mod) (2 ^ 31)
    then decimal_text (w % u32_mod)
    else b'-' ∷ decimal_text (u32_mod - w % u32_mod)

signed_text-int : (w : ℕ) → signed_text (int_arg w) ≡ some (int_text w)
unfolding signed_text int_arg int_text
signed_text-int w = elim (Bool-cases (ltb (w % u32_mod) (2 ^ 31))) [
  | inl small ↦
      let e : ((w % u32_mod) == 2 ^ 63) ≡ false = ground arith in
      let f : ltb (w % u32_mod) (2 ^ 63) ≡ true = ground arith in rw small (rw (e, f))
  | inr large ↦
      let v = w % u32_mod + u64_mod - u32_mod in
      let e : (v == 2 ^ 63) ≡ false = ground arith in
      let f : ltb v (2 ^ 63) ≡ false = ground arith in
      let g : u64_mod - v ≡ u32_mod - w % u32_mod = ground arith in rw large (rw (e, f, g))
]

pub length-int_text : (w : ℕ) → length (int_text w) ≤ 22
unfolding int_text
length-int_text w =
    ground (arith, length-decimal_text (w % u32_mod), length-decimal_text (u32_mod - w % u32_mod))

pub render-ticks :
    (g : ℕ)
    → render (text "Ticks %d\n") false false (num g ∷ [])
      ≡ some (text "Ticks " ++ (int_text g ++ text "\n"))
unfolding render step_piece directive_piece decimal_piece long_arg
render-ticks g = rw (signed_text-int g)

pub render-exit :
    (code : ℕ)
    → render (text "User exit with code:%d.\n") false false (num code ∷ [])
      ≡ some (text "User exit with code:" ++ (int_text code ++ text ".\n"))
unfolding render step_piece directive_piece decimal_piece long_arg
render-exit code = rw (signed_text-int code)

pub render-shutdown :
    (code : ℕ)
    → render (text "System is shutting down with exit code %d.\n") false false (num code ∷ [])
      ≡ some (text "System is shutting down with exit code " ++ (int_text code ++ text ".\n"))
unfolding render step_piece directive_piece decimal_piece long_arg
render-shutdown code = rw (signed_text-int code)

pub render-hartid :
    (hartid : ℕ)
    → render (text "In m_start, hartid:%d\n") false false (num hartid ∷ [])
      ≡ some (text "In m_start, hartid:" ++ (int_text hartid ++ text "\n"))
unfolding render step_piece directive_piece decimal_piece long_arg
render-hartid hartid = rw (signed_text-int hartid)

-- A `long` that is not negative.
pub render-size :
    (mb : ℕ)
    → mb < 2 ^ 63
    → render (text "(Emulated) memory size: %ld MB\n") false false (num mb ∷ [])
      ≡ some (text "(Emulated) memory size: " ++ (decimal_text mb ++ text " MB\n"))
unfolding render step_piece directive_piece decimal_piece long_arg signed_text
render-size mb h =
    let e : mb % u64_mod ≡ mb = omega arith in
    let f : (mb == 2 ^ 63) ≡ false = ground arith in
    let g : ltb mb (2 ^ 63) ≡ true = ground arith in rw (e, f, g)
