-- ===== src/World/Runs.antt =====
-- Laws of commands that run one after another.
use lq_os_lab.Base.{◌≡◌, refl, ap, Bool, true, false, if◌then◌else◌}
use lq_os_lab.World.{World, Run, ok, halted, fault, diverges, Cmd, and_then, After}

-- A command that succeeds: it has an outcome of which `P` holds.
abbrev pub Succeeds : {A : Type 0} → Run A → (A → World → Type 0) → Type 0
Succeeds {A} r P = (a : A) × (v : World) × (r ≡ ok a v) × P a v

pub and_then-ok :
    {A B : Type 0} (r : Run A) (k : A → Cmd B) (a : A) (v : World)
    → r ≡ ok a v
    → and_then r k ≡ k a v
and_then-ok r k a v e = ap (λ r. and_then r k) e

pub and_then_assoc :
    {A B C : Type 0} (r : Run A) (k : A → Cmd B) (l : B → Cmd C)
    → and_then (and_then r k) l ≡ and_then r (λ a v. and_then (k a v) l)
and_then_assoc (ok a w) k l = refl
and_then_assoc (halted w) k l = refl
and_then_assoc fault k l = refl
and_then_assoc diverges k l = refl

-- Commands that agree on the states that `r` may leave may follow it.
pub and_then-After :
    {A B : Type 0} (P : A → World → Type 0) (r : Run A) (k l : A → Cmd B)
    → After P r
    → ((a : A) (v : World) → P a v → k a v ≡ l a v)
    → and_then r k ≡ and_then r l
and_then-After P (ok a w) k l h same = same a w h
and_then-After P (halted w) k l h same = refl
and_then-After P fault k l h same = refl
and_then-After P diverges k l h same = refl

pub After-and_then :
    {A B : Type 0} (P : A → World → Type 0) (Q : B → World → Type 0) (r : Run A) (k : A → Cmd B)
    → After P r
    → ((a : A) (v : World) → P a v → After Q (k a v))
    → After Q (and_then r k)
After-and_then P Q (ok a w) k h step = step a w h
After-and_then P Q (halted w) k h step = tt
After-and_then P Q fault k h step = tt
After-and_then P Q diverges k h step = tt

pub and_then_pure : {A : Type 0} (r : Run A) → and_then r (λ a. ok a) ≡ r
and_then_pure (ok a w) = refl
and_then_pure (halted w) = refl
and_then_pure fault = refl
and_then_pure diverges = refl

pub After-if :
    {A : Type 0} (P : A → World → Type 0) (b : Bool) (k l : Cmd A) (w : World)
    → After P (k w)
    → After P (l w)
    → After P ((if b then k else l) w)
After-if P true k l w h h' = h
After-if P false k l w h h' = h'

pub After-either :
    {A : Type 0} (P : A → World → Type 0) (b : Bool) (r s : Run A)
    → After P r
    → After P s
    → After P (if b then r else s)
After-either P true r s h h' = h
After-either P false r s h h' = h'
