-- ===== src/Kernel/Backtrace/Logs.antt =====
-- What the report of a frame does to the world: console lines, and nothing else.
use lq_os_lab.Base.{
  ℕ, ◌+◌, ◌≡◌, refl, Bool, true, false, Option, none, some, List, [], ◌∷◌, arith, if◌then◌else◌,
  length, inl, inr, text, ap, ◌∙◌,
}
use lq_os_lab.Util.Print.{num, Arg}
use lq_os_lab.Util.Strings.{CharPtr, literal, strcmp, chars}
use lq_os_lab.World.{
  World, HostCall, Run, ok, halted, fault, diverges, Cmd, pure, ◌>>◌, and_then, defined,
}
use lq_os_lab.Spike.Utils.{sprint}
use lq_os_lab.Spike.Utils.Console.{logged, sprint-cases}
use lq_os_lab.Kernel.Backtrace.{find_symbol_name, name_at, name_is, print_name, report_name, report}

-- `n` more host calls, and no other change.
pub record Logs (n : ℕ) (w v : World) : Type 0 where
  pub calls : List HostCall
  pub only_host : v ≡ record w { host = calls }
  pub count : length calls ≡ length w.host + n

pub Logs-zero : (w : World) → Logs 0 w w
Logs-zero w = record { calls = w.host; only_host = refl; count = omega arith }

pub Logs-add :
    {u v : World} (m n k : ℕ) (w : World) → Logs m w v → Logs n v u → m + n ≡ k → Logs k w u
Logs-add m n k w a b e = record {
  calls = b.calls;
  only_host = b.only_host ∙ ap (λ (x : World). record x { host = b.calls }) a.only_host;
  count = omega (arith, a.count, b.count, ap (λ (x : World). length x.host) a.only_host);
}

-- The run returns, having logged `lines` of its result, or meets undefined behaviour.
abbrev pub Returns : {A : Type 0} → (A → ℕ) → World → Run A → Type 0
Returns lines w (ok a v) = Logs (lines a) w v
Returns lines w (halted v) = ⊥
Returns lines w fault = Unit
Returns lines w diverges = ⊥

pub Returns-defined :
    {A : Type 0} (lines : A → ℕ) (o : Option A) (w : World)
    → ((a : A) → lines a ≡ 0)
    → Returns lines w (defined o w)
Returns-defined lines none w z = tt
Returns-defined lines (some a) w z = rw (z a) (Logs-zero w)

module _ {A B : Type 0} (f : A → ℕ) (g : B → ℕ) where
  pub bind :
      (w : World) (r : Run A) (k : A → Cmd B)
      → Returns f w r
      → ((a : A) (v : World) → Logs (f a) w v → Returns g w (k a v))
      → Returns g w (and_then r k)
  bind w (ok a v) k l h = h a v l
  bind w (halted v) k l h = l
  bind w fault k l h = tt
  bind w diverges k l h = l

-- To start again from a later state.
rebase :
    {A : Type 0} (f g : A → ℕ) {w v : World} (m : ℕ) (r : Run A)
    → Logs m w v
    → Returns f v r
    → ((a : A) → m + f a ≡ g a)
    → Returns g w r
rebase f g {w} m (ok a u) l h e = Logs-add m (f a) (g a) w l h (e a)
rebase f g m (halted u) l h e = h
rebase f g m fault l h e = tt
rebase f g m diverges l h e = h

pub sprint-Returns :
    (fmt : List ℕ) (vl : List Arg) (w : World) → Returns (λ _. 1) w (sprint fmt vl w)
sprint-Returns fmt vl w = elim (sprint-cases fmt vl w) [
  | inl e ↦ rw e tt
  | inr (bytes, e) ↦
      rw e (record { calls = (logged bytes w).host; only_host = refl; count = omega arith })
]

abbrev pub valid_lines : Option Bool → ℕ
valid_lines none = 0
valid_lines (some v) = if v then 1 else 0

name_is-Returns :
    (name : CharPtr) (s : List ℕ) (w : World) → Returns (λ (_ : Bool). 0) w (name_is name s w)
unfolding name_is
name_is-Returns name s w =
    bind (λ (_ : ℕ). 0) (λ (_ : Bool). 0) w _ _
      (Returns-defined (λ _. 0) (strcmp name (literal s)) w (λ a. refl)) (λ a v l. l)

print_name-Returns :
    (name : CharPtr) (w : World) → Returns (λ (_ : Unit {0}). 1) w (print_name name w)
unfolding print_name
print_name-Returns name w =
    bind (λ (_ : List ℕ). 0) (λ (_ : Unit {0}). 1) w _ _
      (Returns-defined (λ _. 0) (chars name) w (λ a. refl))
      (λ s v l. rebase (λ _. 1) (λ _. 1) 0 _ l (sprint-Returns _ _ v) (λ a. refl))

pub if-Returns :
    {A : Type 0} (g : A → ℕ) (w v : World) (c : Bool) (m n : Cmd A)
    → Returns g w (m v)
    → Returns g w (n v)
    → Returns g w ((if c then m else n) v)
if-Returns g w v true m n h k = h
if-Returns g w v false m n h k = k

pub seq :
    {A B : Type 0} (f : A → ℕ) (g : B → ℕ) {w v : World} (m : ℕ) (r : Run A) (k : A → Cmd B)
    → Logs m w v
    → Returns f v r
    → ((a : A) (u : World) → Logs (m + f a) w u → Returns g w (k a u))
    → Returns g w (and_then r k)
seq f g {w} m r k l h next =
    bind (λ a. m + f a) g w r k (rebase f (λ a. m + f a) m r l h (λ a. refl)) next

report_name-Returns : (name : CharPtr) (w : World) → Returns valid_lines w (report_name name w)
unfolding report_name
report_name-Returns name w =
    bind (λ (_ : Bool). 0) valid_lines w _ _ (name_is-Returns name (text "main") w)
      λ main v l. if-Returns valid_lines w v main _ _ l (
        seq (λ (_ : Bool). 0) valid_lines 0 _ _ l (name_is-Returns name (text "print_backtrace") v)
          λ own u l₁. if-Returns valid_lines w u own _ _ l₁ (
            seq (λ (_ : Bool). 0) valid_lines 0 _ _ l₁
              (name_is-Returns name (text "do_user_call") u)
              λ call x l₂. if-Returns valid_lines w x call _ _ l₂ (
                seq (λ (_ : Unit {0}). 1) valid_lines 0 _ _ l₂ (print_name-Returns name x)
                  (λ _ y l₃. l₃))))

pub report-Returns : (ret_addr : ℕ) (w : World) → Returns valid_lines w (report ret_addr w)
unfolding report
report-Returns ret_addr w = branch (find_symbol_name w.user_app ret_addr)
  where
    branch :
        (o : Option ℕ)
        → Returns valid_lines w (elim o [
          | none ↦ (sprint (text "0x%lx\n") (num ret_addr ∷ []) >> pure (some true)) w
          | some off ↦ report_name (name_at w.user_app off) w
        ])
    branch none = bind (λ _. 1) valid_lines w _ _ (sprint-Returns _ _ w) (λ _ v l. l)
    branch (some off) = report_name-Returns (name_at w.user_app off) w
