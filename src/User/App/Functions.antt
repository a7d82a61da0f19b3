-- ===== src/User/App/Functions.antt =====
-- The functions `f1` to `f8` of user/app_print_backtrace.c: each adds its line to the backtrace.
use lq_os_lab.Base.{ℕ, List, ◌∷◌, ◌++◌, text}
use lq_os_lab.World.{Process, Trapframe}
use lq_os_lab.Kernel.Backtrace.Frames.{ReadsAs-frame}
use lq_os_lab.Kernel.Backtrace.Labels.{Label, stop, shown}
use lq_os_lab.Kernel.Process.{Image}
use lq_os_lab.User.App.{Convention, Sites, backtrace_body, f8, f7, f6, f5, f4, f3, f2, f1}
use lq_os_lab.User.App.Frames.{IsConvention}
use lq_os_lab.User.App.Nested.{Works, backtrace_body-Works, Named, call-Works}

abbrev pub named_line : List ℕ → Label
named_line t = shown (t ++ text "\n")

-- The labels of `f8` to each function, innermost first, in front of `ls`.
abbrev pub from_f8 : List Label → List Label
from_f8 ls = named_line (text "f8") ∷ ls

abbrev pub from_f8_to_f7 : List Label → List Label
from_f8_to_f7 ls = from_f8 (named_line (text "f7") ∷ ls)

abbrev pub from_f8_to_f6 : List Label → List Label
from_f8_to_f6 ls = from_f8_to_f7 (named_line (text "f6") ∷ ls)

abbrev pub from_f8_to_f5 : List Label → List Label
from_f8_to_f5 ls = from_f8_to_f6 (named_line (text "f5") ∷ ls)

abbrev pub from_f8_to_f4 : List Label → List Label
from_f8_to_f4 ls = from_f8_to_f5 (named_line (text "f4") ∷ ls)

abbrev pub from_f8_to_f3 : List Label → List Label
from_f8_to_f3 ls = from_f8_to_f4 (named_line (text "f3") ∷ ls)

abbrev pub from_f8_to_f2 : List Label → List Label
from_f8_to_f2 ls = from_f8_to_f3 (named_line (text "f2") ∷ ls)

abbrev pub from_f8_to_f1 : List Label → List Label
from_f8_to_f1 ls = from_f8_to_f2 (named_line (text "f1") ∷ ls)

-- The return addresses lie in the functions that the symbols name.
pub record IsNamed (p : Process) (s : Sites) : Type 0 where
  pub f8 : Named p s.in_f8 (named_line (text "f8"))
  pub f7 : Named p s.in_f7 (named_line (text "f7"))
  pub f6 : Named p s.in_f6 (named_line (text "f6"))
  pub f5 : Named p s.in_f5 (named_line (text "f5"))
  pub f4 : Named p s.in_f4 (named_line (text "f4"))
  pub f3 : Named p s.in_f3 (named_line (text "f3"))
  pub f2 : Named p s.in_f2 (named_line (text "f2"))
  pub f1 : Named p s.in_f1 (named_line (text "f1"))
  pub main : Named p s.in_main stop

Named-frame :
    (p : Process) (tf : Trapframe) (r : ℕ) (l : Label)
    → Named p r l
    → Named (record p { trapframe = tf }) r l
Named-frame p tf r l (nz, fits, reads) = (nz, fits, ReadsAs-frame p tf r l reads)

pub IsNamed-frame :
    (p : Process) (tf : Trapframe) (s : Sites)
    → IsNamed p s
    → IsNamed (record p { trapframe = tf }) s
IsNamed-frame p tf s n = record {
  f8 = Named-frame p tf s.in_f8 _ n.f8;
  f7 = Named-frame p tf s.in_f7 _ n.f7;
  f6 = Named-frame p tf s.in_f6 _ n.f6;
  f5 = Named-frame p tf s.in_f5 _ n.f5;
  f4 = Named-frame p tf s.in_f4 _ n.f4;
  f3 = Named-frame p tf s.in_f3 _ n.f3;
  f2 = Named-frame p tf s.in_f2 _ n.f2;
  f1 = Named-frame p tf s.in_f1 _ n.f1;
  main = Named-frame p tf s.in_main stop n.main;
}

module _ {img : Image} {c : Convention} (conv : IsConvention img c) (s : Sites) (p : Process)
    (named : IsNamed p s) where
  f8-Works : (ls : List Label) → Works conv 2 p ls (from_f8 ls) (f8 img c s)
  unfolding f8
  f8-Works ls =
      call-Works conv 1 s.in_f8 p (named_line (text "f8")) ls (from_f8 ls) (backtrace_body c img)
        named.f8 (backtrace_body-Works conv p (from_f8 ls))

  f7-Works : (ls : List Label) → Works conv 3 p ls (from_f8_to_f7 ls) (f7 img c s)
  unfolding f7
  f7-Works ls =
      call-Works conv 2 s.in_f7 p (named_line (text "f7")) ls (from_f8_to_f7 ls) (f8 img c s)
        named.f7 (f8-Works (named_line (text "f7") ∷ ls))

  f6-Works : (ls : List Label) → Works conv 4 p ls (from_f8_to_f6 ls) (f6 img c s)
  unfolding f6
  f6-Works ls =
      call-Works conv 3 s.in_f6 p (named_line (text "f6")) ls (from_f8_to_f6 ls) (f7 img c s)
        named.f6 (f7-Works (named_line (text "f6") ∷ ls))

  f5-Works : (ls : List Label) → Works conv 5 p ls (from_f8_to_f5 ls) (f5 img c s)
  unfolding f5
  f5-Works ls =
      call-Works conv 4 s.in_f5 p (named_line (text "f5")) ls (from_f8_to_f5 ls) (f6 img c s)
        named.f5 (f6-Works (named_line (text "f5") ∷ ls))

  f4-Works : (ls : List Label) → Works conv 6 p ls (from_f8_to_f4 ls) (f4 img c s)
  unfolding f4
  f4-Works ls =
      call-Works conv 5 s.in_f4 p (named_line (text "f4")) ls (from_f8_to_f4 ls) (f5 img c s)
        named.f4 (f5-Works (named_line (text "f4") ∷ ls))

  f3-Works : (ls : List Label) → Works conv 7 p ls (from_f8_to_f3 ls) (f3 img c s)
  unfolding f3
  f3-Works ls =
      call-Works conv 6 s.in_f3 p (named_line (text "f3")) ls (from_f8_to_f3 ls) (f4 img c s)
        named.f3 (f4-Works (named_line (text "f3") ∷ ls))

  f2-Works : (ls : List Label) → Works conv 8 p ls (from_f8_to_f2 ls) (f2 img c s)
  unfolding f2
  f2-Works ls =
      call-Works conv 7 s.in_f2 p (named_line (text "f2")) ls (from_f8_to_f2 ls) (f3 img c s)
        named.f2 (f3-Works (named_line (text "f2") ∷ ls))

  pub f1-Works : (ls : List Label) → Works conv 9 p ls (from_f8_to_f1 ls) (f1 img c s)
  unfolding f1
  f1-Works ls =
      call-Works conv 8 s.in_f1 p (named_line (text "f1")) ls (from_f8_to_f1 ls) (f2 img c s)
        named.f1 (f2-Works (named_line (text "f1") ∷ ls))
