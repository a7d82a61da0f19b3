-- ===== src/Kernel/Backtrace/Frames.antt =====
-- What a backtrace prints does not depend on the rest of the process and of the world: on the trap
-- frame, and on all but the console.
use lq_os_lab.Base.{ℕ, zero, suc, ◌+◌, ◌-◌, ◌≡◌, refl, ◌∙◌, List, [], ◌∷◌, inl, inr}
use lq_os_lab.Base.Memory.{Mem, load64}
use lq_os_lab.World.{Trapframe, Process, World, write}
use lq_os_lab.Spike.Utils.Console.{line, logged}
use lq_os_lab.Kernel.Backtrace.{find_symbol_loop, find_symbol_name}
use lq_os_lab.Kernel.Backtrace.Labels.{Label}
use lq_os_lab.Kernel.Backtrace.Chain.{ReadsAs, Chain, log_all}

module _ (p : Process) (tf : Trapframe) where
  find_symbol_loop-frame :
      (a k i : ℕ) → find_symbol_loop (record p { trapframe = tf }) a k i ≡ find_symbol_loop p a k i
  unfolding find_symbol_loop
  find_symbol_loop-frame a zero i = refl
  find_symbol_loop-frame a (suc k) i = rw (find_symbol_loop-frame a k (i + 1)) refl

  find_symbol_name-frame :
      (a : ℕ) → find_symbol_name (record p { trapframe = tf }) a ≡ find_symbol_name p a
  unfolding find_symbol_name
  find_symbol_name-frame a = rw (find_symbol_loop-frame a p.sym_count 0) refl

  pub ReadsAs-frame :
      (r : ℕ) (l : Label) → ReadsAs p r l → ReadsAs (record p { trapframe = tf }) r l
  ReadsAs-frame r l (inl (e, f)) = inl (find_symbol_name-frame r ∙ e, f)
  ReadsAs-frame r l (inr (off, (t, e, stands, short, f))) =
      inr (off, (t, find_symbol_name-frame r ∙ e, stands, short, f))

  pub Chain-frame :
      (m : Mem) (sp fp : ℕ) (ls : List Label)
      → Chain m p sp fp ls
      → Chain m (record p { trapframe = tf }) sp fp ls
  Chain-frame m sp fp [] c = c
  Chain-frame m sp fp (l ∷ ls) (a, b, n, reads, inl stop) =
      (a, b, n, ReadsAs-frame _ l reads, inl stop)
  Chain-frame m sp fp (l ∷ ls) (a, b, n, reads, inr (inl last)) =
      (a, b, n, ReadsAs-frame _ l reads, inr (inl last))
  Chain-frame m sp fp (l ∷ ls) (a, b, n, reads, inr (inr (up, c))) =
      (a, b, n, ReadsAs-frame _ l reads, inr (inr (up, Chain-frame m sp (load64 m (fp - 16)) ls c)))

pub log_all-host :
    (ts : List (List ℕ)) (v w : World)
    → v.host ≡ w.host
    → v.stderr_kfd ≡ w.stderr_kfd
    → (log_all ts v).host ≡ (log_all ts w).host
log_all-host [] v w h k = h
log_all-host (t ∷ ts) v w h k =
    log_all-host ts (logged (line t) v) (logged (line t) w) (λ i. write (k i) (line t) ∷ h i) k
