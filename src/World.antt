-- ===== src/World.antt =====
-- The state that the kernel's C code shares, and the outcomes of running it. The process and the
-- trap frame are those of kernel/process.h; there is one process, `user_app` of kernel/kernel.c.
pub mod Runs
use lq_os_lab.Base.{ℕ, Bool, List, Option, none, some}
use lq_os_lab.Base.Memory.{Mem}
use lq_os_lab.Hart.{Regs, Csrs}

pub record Trapframe : Type 0 where
  pub regs : Regs
  pub kernel_sp : ℕ
  pub kernel_trap : ℕ
  pub epc : ℕ

pub record ElfSymbol : Type 0 where
  pub name : ℕ
  pub info : ℕ
  pub other : ℕ
  pub shndx : ℕ
  pub value : ℕ
  pub size : ℕ

-- The trap frame that `trapframe` points to is kept in the record; `symtab` and `strtab` are
-- the arrays' contents by index.
pub record Process : Type 0 where
  pub kstack : ℕ
  pub trapframe : Trapframe
  pub symtab : ℕ → ElfSymbol
  pub sym_count : ℕ
  pub strtab : ℕ → ℕ
  pub strtab_sz : ℕ

-- The values of `current`: NULL, or the one process.
pub data ProcessPtr : Type 0 where
  null user_app_ptr : ProcessPtr

-- What the host sees: bytes written to a file descriptor, and the request to stop.
pub data HostCall : Type 0 where
  write : ℕ → List ℕ → HostCall
  exit : ℕ → HostCall

-- `mtimecmp` is the compare register of each hart, `*(uint64*)CLINT_MTIMECMP(hart)`. `host` lists the host calls, the latest first. `scratch` is the uninitialised stack that a
-- `char out[256]` covers, `va_pointer` the value of a `va_list` of `do_panic`.
pub record World : Type 0 where
  pub mem : Mem
  pub regs : Regs
  pub pc : ℕ
  pub user_mode : Bool
  pub csrs : Csrs
  pub mtime : ℕ
  pub mtimecmp : ℕ → ℕ
  pub g_itrframe : Regs
  pub current : ProcessPtr
  pub user_app : Process
  pub g_ticks : ℕ
  pub htif : ℕ
  pub g_mem_size : ℕ
  pub stderr_kfd : ℕ
  pub scratch : ℕ → ℕ
  pub va_pointer : ℕ
  pub host : List HostCall

-- A normal return; the endless loop after a shutdown; behaviour that C leaves undefined; and a
-- loop that used up its fuel.
pub data Run (A : Type 0) : Type 0 where
  ok : A → World → Run A
  halted : World → Run A
  fault : Run A
  diverges : Run A

abbrev pub Cmd : Type 0 → Type 0
Cmd A = World → Run A

abbrev pub pure : {A : Type 0} → A → Cmd A
pure a w = ok a w

module _ {A B : Type 0} where
  abbrev pub and_then : Run A → (A → Cmd B) → Run B
  and_then (ok a w) k = k a w
  and_then (halted w) k = halted w
  and_then fault k = fault
  and_then diverges k = diverges

  infixl 5 ◌>>=◌ ◌>>◌
  abbrev pub ◌>>=◌ : Cmd A → (A → Cmd B) → Cmd B
  ◌>>=◌ m k w = and_then (m w) k

  abbrev pub ◌>>◌ : Cmd A → Cmd B → Cmd B
  ◌>>◌ m n w = and_then (m w) (λ _. n)

abbrev pub get : {A : Type 0} → (World → A) → Cmd A
get f w = ok (f w) w

abbrev pub modify : (World → World) → Cmd (Unit {0})
modify f w = ok tt (f w)

abbrev pub set_csrs : (Csrs → Csrs) → Cmd (Unit {0})
set_csrs f w = ok tt (record w { csrs = f w.csrs })

-- A value that C cannot compute is undefined behaviour.
abbrev pub defined : {A : Type 0} → Option A → Cmd A
defined none w = fault
defined (some a) w = ok a w

-- A claim about the state after a normal return.
abbrev pub After : {A : Type 0} → (A → World → Type 0) → Run A → Type 0
After P (ok a w) = P a w
After P (halted w) = Unit
After P fault = Unit
After P diverges = Unit

-- The run comes to an end, or to the shutdown's loop.
abbrev pub Terminates : {A : Type 0} → Run A → Type 0
Terminates (ok a w) = Unit
Terminates (halted w) = Unit
Terminates fault = Unit
Terminates diverges = ⊥
