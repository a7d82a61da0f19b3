-- ===== src/Tests/Apps.antt =====
-- The application, with frames of 16 and 32 bytes.
use lq_os_lab.Base.{
  ℕ, ◌+◌, ◌-◌, ◌*◌, ◌^◌, ◌<◌, ◌≤◌, ◌≡◌, refl, ◌∙◌, arith, ◌==◌, if◌then◌else◌, List, ◌∷◌, ◌++◌,
  text, inl, inr, get_or, some, length,
}
use lq_os_lab.Base.Memory.{Mem, u64_mod, load64, store64}
use lq_os_lab.Util.Print.{int_arg}
use lq_os_lab.Util.Strings.Lexical.{StandsAt, same_text}
use lq_os_lab.Util.Copy.Words.{store64-at, store64-other}
use lq_os_lab.Hart.{Regs, zero_regs}
use lq_os_lab.World.{World, Process, ElfSymbol, exit, halted}
use lq_os_lab.Spike.Utils.Console.{logged}
use lq_os_lab.Kernel.Backtrace.{find_symbol_name, find_symbol_loop, limit_addr, name_at}
use lq_os_lab.Kernel.Backtrace.Labels.{Label, name_label}
use lq_os_lab.Kernel.Backtrace.Chain.{ReadsAs, log_all}
use lq_os_lab.Kernel.Syscall.Results.{exit_lines}
use lq_os_lab.Kernel.Process.{prepare, return_to_user, sret}
use lq_os_lab.Kernel.Process.Resume.{IsReady, resumed, resumed-IsReady}
use lq_os_lab.User.App.{Convention, Sites, main}
use lq_os_lab.User.App.Frames.{IsConvention}
use lq_os_lab.User.App.Functions.{IsNamed, IsNamed-frame}
use lq_os_lab.User.App.Main.{banner, app_lines, main-prints}
use lq_os_lab.Tests.Samples.{image, one_function, user_world}

load64-store64 : (m : Mem) (a v : ℕ) → v < u64_mod → load64 (store64 m a v) a ≡ v
unfolding load64
load64-store64 m a v h =
    let first : a + 0 ≡ a = omega arith in
    omega (
      arith,
      rw first at (store64-at m a v 0 (omega arith)),
      store64-at m a v 1 (omega arith),
      store64-at m a v 2 (omega arith),
      store64-at m a v 3 (omega arith),
      store64-at m a v 4 (omega arith),
      store64-at m a v 5 (omega arith),
      store64-at m a v 6 (omega arith),
      store64-at m a v 7 (omega arith),
    )

load64-below : (m : Mem) (a v b : ℕ) → b + 8 ≤ a → load64 (store64 m a v) b ≡ load64 m b
unfolding load64
load64-below m a v b h =
    let same : (i : ℕ) → i < 8 → store64 m a v (b + i) ≡ m (b + i) =
      λ i l. store64-other m a v (b + i) (inl (omega arith)) in
    let first : b + 0 ≡ b = omega arith in
    rw
      (
        rw first at (same 0 (omega arith)),
        same 1 (omega arith),
        same 2 (omega arith),
        same 3 (omega arith),
        same 4 (omega arith),
        same 5 (omega arith),
        same 6 (omega arith),
        same 7 (omega arith),
      )
      refl

-- As gcc lays out the frames of these functions without optimisation.
abbrev enter : ℕ → World → World
enter r w = record w {
  regs = record (w.regs) { ra = r; sp = w.regs.sp - 16; s0 = w.regs.sp };
  mem = store64 (store64 w.mem (w.regs.sp - 16) w.regs.s0) (w.regs.sp - 8) r;
}

abbrev enter_leaf : World → World
enter_leaf w = record w {
  regs = record (w.regs) { sp = w.regs.sp - 32; s0 = w.regs.sp };
  mem = store64 w.mem (w.regs.sp - 8) w.regs.s0;
}

-- The frame that `s0` ends is given back.
abbrev leave : World → World
leave w = record w { regs = record (w.regs) { sp = w.regs.s0; s0 = load64 w.mem (w.regs.s0 - 16) } }

abbrev gcc : Convention
gcc = record { enter = enter; enter_leaf = enter_leaf; leave = leave }

moved-IsReady :
    (g : Regs) (m : Mem) (w : World)
    → IsReady image w
    → IsReady image (record w { regs = g; mem = m })
moved-IsReady g m w r = record {
  frame = r.frame;
  vector = r.vector;
  handler = r.handler;
  stack = r.stack;
  running = r.running;
  in_user_mode = r.in_user_mode;
  spp_clear = r.spp_clear;
}

gcc-IsConvention : IsConvention image gcc
gcc-IsConvention = record {
  frame = λ r w. refl;
  size = λ r w h. (omega arith, omega arith);
  address = λ r w h fits. load64-store64 _ (w.regs.sp - 8) r fits;
  link = λ r w h fits.
      load64-below _ (w.regs.sp - 8) r (w.regs.sp - 16) (omega arith)
      ∙ load64-store64 w.mem (w.regs.sp - 16) w.regs.s0 fits;
  above = λ r w a h up.
      store64-other _ (w.regs.sp - 8) r a (inr (omega arith))
      ∙ store64-other w.mem (w.regs.sp - 16) w.regs.s0 a (inr (omega arith));
  process = λ r w. refl;
  console = λ r w. (refl, refl);
  ready = λ r w. moved-IsReady _ _ w;
  leaf_frame = λ w. refl;
  leaf_size = λ w h. omega arith;
  leaf_link = λ w h fits. load64-store64 w.mem (w.regs.sp - 8) w.regs.s0 fits;
  leaf_above = λ w a h up. store64-other w.mem (w.regs.sp - 8) w.regs.s0 a (inr (omega arith));
  leaf_process = λ w. refl;
  leaf_console = λ w. (refl, refl);
  leaf_ready = λ w. moved-IsReady _ _ w;
  leave_ready = λ w. moved-IsReady _ _ w;
  leave_console = λ w. (refl, refl);
}

-- A function at each 0x40 bytes from 0x81000000 on: `main`, then `f1` to `f8`.
abbrev names : List ℕ
names =
    0 ∷ text "main"
    ++ 0 ∷ text "f1"
    ++ 0 ∷ text "f2"
    ++ 0 ∷ text "f3"
    ++ 0 ∷ text "f4"
    ++ 0 ∷ text "f5"
    ++ 0 ∷ text "f6"
    ++ 0 ∷ text "f7"
    ++ 0 ∷ text "f8"

abbrev function : ℕ → ElfSymbol
function i = record {
  name = if i == 0 then 1 else 3 + 3 * i;
  info = 0x12;
  other = 0;
  shndx = 1;
  value = 0x81000000 + 0x40 * i;
  size = 0x40;
}

abbrev app_process : Process
app_process = record one_function {
  symtab = function;
  sym_count = 9;
  strtab = λ i. get_or names i 0;
  strtab_sz = 64;
}

abbrev sites : Sites
sites = record {
  in_f8 = 0x81000210;
  in_f7 = 0x810001d0;
  in_f6 = 0x81000190;
  in_f5 = 0x81000150;
  in_f4 = 0x81000110;
  in_f3 = 0x810000d0;
  in_f2 = 0x81000090;
  in_f1 = 0x81000050;
  in_main = 0x81000010;
}

reads :
    (i : ℕ) (t : List ℕ) (l : Label)
    → find_symbol_name app_process (0x81000010 + 0x40 * i) ≡ some (function i).name
    → StandsAt (name_at app_process (function i).name) 0 t
    → length t < 2 ^ 30
    → l ≡ name_label t
    → ReadsAs app_process (0x81000010 + 0x40 * i) l
reads i t l e s h same = inr ((function i).name, (t, e, s, h, same))

app-IsNamed : IsNamed app_process sites
unfolding find_symbol_name find_symbol_loop limit_addr name_label same_text
app-IsNamed = record {
  f8 = (
    (λ e. absurd (omega (arith, e))),
    omega arith,
    reads 8 (text "f8") _ refl (ground arith) (omega arith) refl,
  );
  f7 = (
    (λ e. absurd (omega (arith, e))),
    omega arith,
    reads 7 (text "f7") _ refl (ground arith) (omega arith) refl,
  );
  f6 = (
    (λ e. absurd (omega (arith, e))),
    omega arith,
    reads 6 (text "f6") _ refl (ground arith) (omega arith) refl,
  );
  f5 = (
    (λ e. absurd (omega (arith, e))),
    omega arith,
    reads 5 (text "f5") _ refl (ground arith) (omega arith) refl,
  );
  f4 = (
    (λ e. absurd (omega (arith, e))),
    omega arith,
    reads 4 (text "f4") _ refl (ground arith) (omega arith) refl,
  );
  f3 = (
    (λ e. absurd (omega (arith, e))),
    omega arith,
    reads 3 (text "f3") _ refl (ground arith) (omega arith) refl,
  );
  f2 = (
    (λ e. absurd (omega (arith, e))),
    omega arith,
    reads 2 (text "f2") _ refl (ground arith) (omega arith) refl,
  );
  f1 = (
    (λ e. absurd (omega (arith, e))),
    omega arith,
    reads 1 (text "f1") _ refl (ground arith) (omega arith) refl,
  );
  main = (
    (λ e. absurd (omega (arith, e))),
    omega arith,
    reads 0 (text "main") _ refl (ground arith) (omega arith) refl,
  );
}

abbrev app_loaded : World
app_loaded = record user_world {
  user_app = record app_process {
    trapframe = record (one_function.trapframe) { regs = record (zero_regs) { sp = 0x810f0000 } };
  };
}

abbrev app_world : World
app_world = resumed image app_loaded

app-IsNamed-world : IsNamed app_world.user_app sites
unfolding return_to_user prepare sret
app-IsNamed-world = IsNamed-frame app_process app_world.user_app.trapframe sites app-IsNamed

main-prints_example :
    (u : World) × (main image gcc sites 0x81080000 app_world ≡ halted u)
    × (u.host
        ≡ exit (int_arg 0) ∷ (exit_lines 0 (log_all app_lines (logged banner app_world))).host)
unfolding return_to_user prepare sret
main-prints_example =
    main-prints image gcc sites gcc-IsConvention 0x81080000 app_world app-IsNamed-world
      (resumed-IsReady image app_loaded) (omega arith) (omega arith)
