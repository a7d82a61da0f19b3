-- ===== src/Kernel/Backtrace/Blind.antt =====
-- Reporting a return address, kernel/syscall.c, does not look at memory.
use lq_os_lab.Base.{
  ℕ, ◌≡◌, refl, ap, ◌∙◌, Bool, true, false, Option, none, some, List, [], ◌∷◌, if◌then◌else◌, text,
}
use lq_os_lab.Base.Memory.{Mem}
use lq_os_lab.Util.Print.{Arg, num, Out, vsnprintf}
use lq_os_lab.Util.Strings.{CharPtr, literal, strcmp, chars}
use lq_os_lab.World.{World, Run, ok, halted, fault, diverges, Cmd, and_then, defined}
use lq_os_lab.Spike.Utils.{sprint, vprintk, host_write, written, bytes_from}
use lq_os_lab.Kernel.Backtrace.{report, report_name, name_is, print_name, find_symbol_name, name_at}

-- The world with another memory, and the outcome of a run in it.
abbrev pub with_mem : Mem → World → World
with_mem m w = record w { mem = m }

abbrev pub run_with : {A : Type 0} → Mem → Run A → Run A
run_with m (ok a w) = ok a (with_mem m w)
run_with m (halted w) = halted (with_mem m w)
run_with m fault = fault
run_with m diverges = diverges

module _ (m : Mem) where
  -- The command does not look at memory.
  abbrev Blind : {A : Type 0} → Cmd A → Type 0
  Blind c = (w : World) → c (with_mem m w) ≡ run_with m (c w)

  pub and_then-with :
      {A B : Type 0} (r : Run A) (k k' : A → Cmd B)
      → ((a : A) (w : World) → r ≡ ok a w → k' a (with_mem m w) ≡ run_with m (k a w))
      → and_then (run_with m r) k' ≡ run_with m (and_then r k)
  and_then-with (ok a w) k k' h = h a w refl
  and_then-with (halted w) k k' h = refl
  and_then-with fault k k' h = refl
  and_then-with diverges k k' h = refl

  and_then-Blind :
      {A B : Type 0} (c : Cmd A) (k : A → Cmd B)
      → Blind c
      → ((a : A) → Blind (k a))
      → Blind (λ w. and_then (c w) k)
  and_then-Blind c k b h w = ap (λ r. and_then r k) (b w) ∙ and_then-with (c w) k k (λ a v e. h a v)

  defined-Blind : {A : Type 0} (o : Option A) → Blind (defined o)
  defined-Blind none w = refl
  defined-Blind (some a) w = refl

  if-Blind : {A : Type 0} (c : Bool) (r s : Cmd A) → Blind r → Blind s → Blind (if c then r else s)
  if-Blind true r s h k = h
  if-Blind false r s h k = k

  sprint-Blind : (fmt : List ℕ) (vl : List Arg) → Blind (sprint fmt vl)
  unfolding sprint vprintk host_write
  sprint-Blind fmt vl w = by_text (vsnprintf w.scratch 256 fmt vl)
    where
      by_text :
          (o : Option Out)
          → elim o [
            | none ↦ fault
            | some o ↦ host_write (bytes_from (written o) 0 o.buf) (with_mem m w)
          ]
            ≡ run_with m
                (elim o [ none ↦ fault | some o ↦ host_write (bytes_from (written o) 0 o.buf) w ])
      by_text none = refl
      by_text (some o) = refl

  name_is-Blind : (name : CharPtr) (s : List ℕ) → Blind (name_is name s)
  unfolding name_is
  name_is-Blind name s =
      and_then-Blind (defined (strcmp name (literal s))) _ (defined-Blind (strcmp name (literal s)))
        (λ d w. refl)

  print_name-Blind : (name : CharPtr) → Blind (print_name name)
  unfolding print_name
  print_name-Blind name =
      and_then-Blind (defined (chars name)) _ (defined-Blind (chars name)) (λ s. sprint-Blind _ _)

  report_name-Blind : (name : CharPtr) → Blind (report_name name)
  unfolding report_name
  report_name-Blind name =
      and_then-Blind (name_is name (text "main")) _ (name_is-Blind name (text "main")) λ is_main.
        if-Blind is_main _ _ (λ w. refl)
          (and_then-Blind (name_is name (text "print_backtrace")) _
            (name_is-Blind name (text "print_backtrace"))
            λ own.
              if-Blind own _ _ (λ w. refl)
                (and_then-Blind (name_is name (text "do_user_call")) _
                  (name_is-Blind name (text "do_user_call"))
                  λ call.
                    if-Blind call _ _ (λ w. refl)
                      (and_then-Blind (print_name name) _ (print_name-Blind name) (λ u w. refl))))

  pub report-Blind : (r : ℕ) → Blind (report r)
  unfolding report
  report-Blind r w = by_name (find_symbol_name w.user_app r)
    where
      by_name :
          (o : Option ℕ)
          → elim o [
            | none ↦
                and_then (sprint (text "0x%lx\n") (num r ∷ []) (with_mem m w)) (λ _. ok (some true))
            | some off ↦ report_name (name_at w.user_app off) (with_mem m w)
          ]
            ≡ run_with m (elim o [
              | none ↦ and_then (sprint (text "0x%lx\n") (num r ∷ []) w) (λ _. ok (some true))
              | some off ↦ report_name (name_at w.user_app off) w
            ])
      by_name none =
          and_then-Blind (sprint (text "0x%lx\n") (num r ∷ [])) (λ _. ok (some true))
            (sprint-Blind (text "0x%lx\n") (num r ∷ [])) (λ u v. refl) w
      by_name (some off) = report_name-Blind (name_at w.user_app off) w
