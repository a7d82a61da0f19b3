-- ===== src/Tests/Texts.antt =====
-- Texts and blocks of memory.
use lq_os_lab.Base.{ℕ, ◌-◌, ◌%◌, ◌≡◌, inl, inr, ◌+◌, take, ◌↔◌, refl, arith, some, text}
use lq_os_lab.Base.Memory.{Mem, u64_mod}
use lq_os_lab.Util.Print.{count_digits}
use lq_os_lab.Util.Print.Spec.{decimal_text, digits_text, signed_text}
use lq_os_lab.Util.Strings.Atol.{atol-signed_text}
use lq_os_lab.Util.Copy.Ended.{IsCopied, safestrcpy-IsCopied}
use lq_os_lab.Tests.Samples.{user_world}
use lq_os_lab.Util.Strings.{literal, atol, long_bias, strcmp}
use lq_os_lab.Util.Strings.Lexical.{sign, lexical, StandsAt, strcmp-lexical}
use lq_os_lab.Util.Copy.{memcpy, memset, memmove, safestrcpy}
use lq_os_lab.Util.Copy.Move.{IsCopy, memmove-IsCopy}
use lq_os_lab.Util.Copy.Words.{memcpy-IsCopy}
use lq_os_lab.Util.Copy.Fill.{IsFill, memset-IsFill}

abbrev counted : Mem
counted a = a % 256

memmove-IsCopy_example : IsCopy counted (memmove 4 0 10 counted) 4 0 10
memmove-IsCopy_example = memmove-IsCopy 4 0 10 counted (λ a. omega arith)

memcpy-IsCopy_example : IsCopy counted (memcpy 64 8 20 counted) 64 8 20
memcpy-IsCopy_example = memcpy-IsCopy 64 8 20 counted (λ a. omega arith) (inl (omega arith))

memset-IsFill_example : IsFill counted (memset 16 0x141 24 counted) 16 24 0x41
memset-IsFill_example = memset-IsFill 16 0x141 24 counted

-- The texts "go" and "gone" as the literals hold them.
go_stands : StandsAt (literal (text "go")) 0 (text "go")
go_stands = (
  refl,
  (λ e. absurd (omega arith)),
  omega arith,
  (refl, (λ e. absurd (omega arith)), omega arith, refl),
)

gone_stands : StandsAt (literal (text "gone")) 0 (text "gone")
gone_stands = (
  refl,
  (λ e. absurd (omega arith)),
  omega arith,
  (
    refl,
    (λ e. absurd (omega arith)),
    omega arith,
    (
      refl,
      (λ e. absurd (omega arith)),
      omega arith,
      (refl, (λ e. absurd (omega arith)), omega arith, refl),
    ),
  ),
)

strcmp-lexical_example :
    (d : ℕ) × (strcmp (literal (text "go")) (literal (text "gone")) ≡ some d)
    × (sign d ≡ lexical (text "go") (text "gone"))
    × ((d ≡ 0) ↔ (text "go" ≡ text "gone"))
strcmp-lexical_example =
    strcmp-lexical (literal (text "go")) (literal (text "gone")) (text "go") (text "gone") go_stands
      gone_stands (omega arith)

minus_seven : signed_text (u64_mod - 7) ≡ some (text "-7")
unfolding signed_text decimal_text digits_text count_digits
minus_seven = refl

atol-signed_text_example : atol (literal (text "-7")) ≡ some ((u64_mod - 7 + long_bias) % u64_mod)
atol-signed_text_example =
    atol-signed_text (literal (text "-7")) (u64_mod - 7) (text "-7") (omega arith) minus_seven (
      refl,
      (λ e. absurd (omega arith)),
      omega arith,
      (refl, (λ e. absurd (omega arith)), omega arith, refl),
    )

-- Two bytes of room for the text "hi" at address 2.
safestrcpy-IsCopied_example :
    IsCopied user_world.mem (safestrcpy 16 2 2 user_world.mem) 16 2 (take (2 - 1) (text "hi"))
safestrcpy-IsCopied_example =
    safestrcpy-IsCopied 16 2 2 user_world.mem (text "hi") (omega arith) (inr (omega arith)) (
      refl,
      (λ e. absurd (omega arith)),
      omega arith,
      (refl, (λ e. absurd (omega arith)), omega arith, refl),
    )
