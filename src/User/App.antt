-- ===== src/User/App.antt =====
-- The application, user/app_print_backtrace.c. The calling convention is a parameter: what the
-- compiler makes of a call and of a function's beginning and end.
pub mod Frames
pub mod Nested
pub mod Functions
pub mod Main
use lq_os_lab.Base.{ℕ, [], ◌∷◌, text}
use lq_os_lab.World.{World, Cmd, ok, and_then}
use lq_os_lab.Kernel.Process.{Image}
use lq_os_lab.User.{printu, exit_user, print_backtrace}

-- `enter` is a call with its return address, up to the body of a function that makes calls;
-- `enter_leaf` is the same for `do_user_call`, which makes none; `leave` is the return.
pub record Convention : Type 0 where
  pub enter : ℕ → World → World
  pub enter_leaf : World → World
  pub leave : World → World

-- The return address of the call in each function.
pub record Sites : Type 0 where
  pub in_f8 : ℕ
  pub in_f7 : ℕ
  pub in_f6 : ℕ
  pub in_f5 : ℕ
  pub in_f4 : ℕ
  pub in_f3 : ℕ
  pub in_f2 : ℕ
  pub in_f1 : ℕ
  pub in_main : ℕ

module _ (c : Convention) where
  -- A call of a function that returns nothing.
  abbrev pub call : ℕ → Cmd (Unit {0}) → Cmd (Unit {0})
  call site body w = and_then (body (c.enter site w)) λ _ v. ok tt (c.leave v)

  -- The body of `print_backtrace`: the call of `do_user_call`.
  abbrev pub backtrace_body : Image → Cmd (Unit {0})
  backtrace_body img w = and_then (print_backtrace img 8 (c.enter_leaf w)) λ _ v. ok tt (c.leave v)

module _ (img : Image) (c : Convention) (s : Sites) where
  unfoldable pub f8 : Cmd (Unit {0})
  f8 = call c s.in_f8 (backtrace_body c img)

  unfoldable pub f7 : Cmd (Unit {0})
  f7 = call c s.in_f7 f8

  unfoldable pub f6 : Cmd (Unit {0})
  f6 = call c s.in_f6 f7

  unfoldable pub f5 : Cmd (Unit {0})
  f5 = call c s.in_f5 f6

  unfoldable pub f4 : Cmd (Unit {0})
  f4 = call c s.in_f4 f5

  unfoldable pub f3 : Cmd (Unit {0})
  f3 = call c s.in_f3 f4

  unfoldable pub f2 : Cmd (Unit {0})
  f2 = call c s.in_f2 f3

  unfoldable pub f1 : Cmd (Unit {0})
  f1 = call c s.in_f1 f2

  -- `buf` is the buffer of `printu`, on the stack.
  unfoldable pub main : ℕ → Cmd ℕ
  main buf w =
      and_then (printu img buf (text "back trace the user app in the following:\n") [] w)
        λ _ u. and_then (call c s.in_main f1 u) λ _ v. exit_user img 0 v
