-- ===== src/Kernel/Syscall/Quiet.antt =====
-- What a system call leaves alone.
use lq_os_lab.Base.{
  ℕ, ◌+◌, ◌-◌, ◌≡◌, refl, Bool, true, false, Option, none, some, List, [], ◌∷◌, ◌==◌, if◌then◌else◌,
  text, inl, inr,
}
use lq_os_lab.Base.Memory.{u64_mod}
use lq_os_lab.Util.Print.{num, Arg}
use lq_os_lab.Util.Strings.{chars}
use lq_os_lab.World.{
  World, HostCall, Run, ok, halted, fault, diverges, Cmd, pure, ◌>>◌, and_then, defined, After,
}
use lq_os_lab.Spike.Utils.{sprint, shutdown, do_panic, panic}
use lq_os_lab.Spike.Utils.Console.{logged, sprint-cases}
use lq_os_lab.Kernel.Backtrace.{sys_user_backtrace}
use lq_os_lab.Kernel.Backtrace.Bounds.{Walks, sys_user_backtrace-Walks}
use lq_os_lab.Kernel.Syscall.{sys_user_base, sys_user_print, sys_user_exit, do_syscall}

-- Only the list of host calls may differ.
pub record Quiet (w v : World) : Type 0 where
  pub calls : List HostCall
  pub only_host : v ≡ record w { host = calls }

-- Every normal return leaves all but the host calls alone.
abbrev pub QuietRun : World → Run ℕ → Type 0
QuietRun w r = After (λ _ v. Quiet w v) r

sprint-Quiet :
    (fmt : List ℕ) (vl : List Arg) (w : World)
    → QuietRun w (and_then (sprint fmt vl w) (λ _ v. ok 0 v))
sprint-Quiet fmt vl w = elim (sprint-cases fmt vl w) [
  | inl e ↦ rw e tt
  | inr (bytes, e) ↦ rw e (record { calls = (logged bytes w).host; only_host = refl })
]

print-Quiet : (buf n : ℕ) (w : World) → QuietRun w (sys_user_print buf n w)
unfolding sys_user_print
print-Quiet buf n w = branch (chars (λ i. w.mem (buf + i)))
  where
    branch :
        (o : Option (List ℕ)) → QuietRun w (and_then (defined o w) (λ s. sprint s [] >> pure 0))
    branch none = tt
    branch (some s) = sprint-Quiet s [] w

walk-Quiet : (d : ℕ) (w : World) (r : Run ℕ) → Walks d 0 w r → QuietRun w r
walk-Quiet d w (ok n v) h = record { calls = h.0.calls; only_host = h.0.only_host }
walk-Quiet d w (halted v) h = tt
walk-Quiet d w fault h = tt
walk-Quiet d w diverges h = tt

-- The run stops the machine, or meets undefined behaviour.
abbrev pub Stops : {A : Type 0} → Run A → Type 0
Stops (ok a w) = ⊥
Stops (halted w) = Unit
Stops fault = Unit
Stops diverges = ⊥

pub and_then-Stops :
    (B : Type 0) (fmt : List ℕ) (vl : List Arg) (w : World) (k : Cmd B)
    → ((v : World) → Stops (k v))
    → Stops {A = B} ((sprint fmt vl >> k) w)
and_then-Stops B fmt vl w k h = elim (sprint-cases fmt vl w) [
  | inl e ↦ rw e tt
  | inr (bytes, e) ↦ rw e (h (logged bytes w))
]

shutdown-Stops : (A : Type 0) (code : ℕ) (w : World) → Stops (shutdown {A = A} code w)
unfolding shutdown
shutdown-Stops A code w = and_then-Stops A _ _ w _ (λ v. tt)

pub panic-Stops :
    (A : Type 0) (s : List ℕ) (vl : List Arg) (w : World) → Stops (panic {A = A} s vl w)
unfolding panic do_panic
panic-Stops A s vl w = and_then-Stops A _ _ w _ (shutdown-Stops A (u64_mod - 1))

exit-Stops : (code : ℕ) (w : World) → Stops (sys_user_exit code w)
unfolding sys_user_exit
exit-Stops code w = and_then-Stops ℕ _ _ w _ (shutdown-Stops ℕ code)

Stops-Quiet : (w : World) (r : Run ℕ) → Stops r → QuietRun w r
Stops-Quiet w (ok n v) h = absurd h
Stops-Quiet w (halted v) h = tt
Stops-Quiet w fault h = tt
Stops-Quiet w diverges h = tt

if-run :
    (P : Run ℕ → Type 0) (c : Bool) (m n : Cmd ℕ) (w : World)
    → P (m w)
    → P (n w)
    → P ((if c then m else n) w)
if-run P true m n w h k = h
if-run P false m n w h k = k

-- A system call that returns has changed nothing but the list of host calls: no memory, no
-- register, no trap frame and no symbol table.
pub do_syscall-Quiet :
    (a0 a1 a2 a3 a4 a5 a6 a7 : ℕ) (w : World) → QuietRun w (do_syscall a0 a1 a2 a3 a4 a5 a6 a7 w)
unfolding do_syscall
do_syscall-Quiet a0 a1 a2 a3 a4 a5 a6 a7 w =
    let unknown = panic {A = ℕ} (text "Unknown syscall %ld \n") (num a0 ∷ []) in
    let third = if a0 == sys_user_base + 2 then sys_user_backtrace a1 else unknown in
    let second = if a0 == sys_user_base + 1 then sys_user_exit a1 else third in
    if-run (QuietRun w) (a0 == sys_user_base + 0) (sys_user_print a1 a2) second w
      (print-Quiet a1 a2 w)
      (if-run (QuietRun w) (a0 == sys_user_base + 1) (sys_user_exit a1) third w
        (Stops-Quiet w (sys_user_exit a1 w) (exit-Stops a1 w))
        (if-run (QuietRun w) (a0 == sys_user_base + 2) (sys_user_backtrace a1) unknown w
          (walk-Quiet a1 w (sys_user_backtrace a1 w) (sys_user_backtrace-Walks a1 w))
          (Stops-Quiet w (unknown w)
            (panic-Stops ℕ (text "Unknown syscall %ld \n") (num a0 ∷ []) w))))
