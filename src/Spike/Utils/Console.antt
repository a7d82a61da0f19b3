-- ===== src/Spike/Utils/Console.antt =====
-- What `sprint` sends to the host, from the specification of `vsnprintf`.
use lq_os_lab.Base.{
  ℕ, zero, suc, ◌+◌, ◌^◌, ◌<◌, ◌≡◌, refl, ap, ◌⊎◌, Option, none, some, List, [], ◌∷◌, ◌++◌, arith,
  ltb, if◌then◌else◌, length, take, get_or, false, ◌∙◌, Bool-cases, inl, inr, ◌==◌, text,
}
use Prim.Native.Nat.{min}
use lq_os_lab.Util.Print.{Arg, str, num, Out, int_arg, vsnprintf}
use lq_os_lab.Util.Print.Spec.{render}
use lq_os_lab.Util.Print.Refine.{Prints, PrintsLike, vsnprintf-render}
use lq_os_lab.World.{World, write, ok, fault, After}
use lq_os_lab.Spike.Utils.{bytes_from, written, host_write, vprintk, sprint, poweroff, assert_fail}

-- A console line: the text, or its first 255 bytes and a NUL.
unfoldable pub line : List ℕ → List ℕ
line t = if ltb (length t) 256 then t else take 255 t ++ 0 ∷ []

-- The world with one more write to the console.
abbrev pub logged : List ℕ → World → World
logged bytes w = record w { host = write w.stderr_kfd bytes ∷ w.host }

shift :
    (t : List ℕ) (c i : ℕ) (buf : ℕ → ℕ) (k : ℕ)
    → ((j : ℕ) → j < suc k → buf (i + j) ≡ get_or (c ∷ t) j 0)
    → (j : ℕ) → j < k
    → buf (i + 1 + j) ≡ get_or t j 0
shift t c i buf k h j lt =
    let e : i + 1 + j ≡ i + suc j = omega arith in ap buf e ∙ h (suc j) (omega arith)

bytes_from-eq :
    (t : List ℕ) (i : ℕ) (buf : ℕ → ℕ)
    → ((j : ℕ) → j < length t → buf (i + j) ≡ get_or t j 0)
    → bytes_from (length t) i buf ≡ t
unfolding bytes_from
bytes_from-eq [] i buf h = refl
bytes_from-eq (c ∷ t) i buf h =
    let z : i ≡ i + 0 = omega arith in
    let head : buf i ≡ c = ap buf z ∙ h 0 (omega arith) in
    λ e. head e ∷ bytes_from-eq t (i + 1) buf (shift t c i buf (length t) h) e

bytes_from-cut :
    (k : ℕ) (t : List ℕ) (i : ℕ) (buf : ℕ → ℕ)
    → k < length t
    → ((j : ℕ) → j < k → buf (i + j) ≡ get_or t j 0)
    → buf (i + k) ≡ 0
    → bytes_from (suc k) i buf ≡ take k t ++ 0 ∷ []
unfolding bytes_from take
bytes_from-cut zero t i buf h inside end =
    let z : i ≡ i + 0 = omega arith in λ e. (ap buf z ∙ end) e ∷ []
bytes_from-cut (suc k) [] i buf h inside end = absurd (omega arith)
bytes_from-cut (suc k) (c ∷ t) i buf h inside end =
    let z : i ≡ i + 0 = omega arith in
    let head : buf i ≡ c = ap buf z ∙ inside 0 (omega arith) in
    let last : i + 1 + k ≡ i + suc k = omega arith in
    λ e.
      head e
      ∷ bytes_from-cut k t (i + 1) buf (omega arith) (shift t c i buf k inside) (ap buf last ∙ end)
          e

written-eq : (o : Out) → o.pos < 2 ^ 31 → written o ≡ (if ltb o.pos 256 then o.pos else 256)
unfolding written int_arg
written-eq o h = ground arith

written-line :
    (b : ℕ → ℕ) (t : List ℕ) (o : Out)
    → Prints 256 b t o
    → length t < 2 ^ 31
    → bytes_from (written o) 0 o.buf ≡ line t
unfolding line
written-line b t o p h = elim (Bool-cases (ltb (length t) 256)) [
  | inl short ↦
      let e : written o ≡ length t = ground (arith, p.counts, written-eq o) in
      rw (e, short)
        (bytes_from-eq t 0 o.buf
          (λ j lt. let z : 0 + j ≡ j = omega arith in rw z (p.inside j lt (ground arith))))
  | inr long ↦
      let e : written o ≡ 256 = ground (arith, p.counts, written-eq o) in
      let at : min (length t) 255 ≡ 0 + 255 = ground arith in
      let end : o.buf (0 + 255) ≡ 0 = rw at at (p.ends (omega arith)) in
      rw (e, long)
        (bytes_from-cut 255 t 0 o.buf (ground arith)
          (λ j lt.
            let z : 0 + j ≡ j = omega arith in rw z (p.inside j (ground arith) (omega arith)))
          end)
]

sprints :
    (t : List ℕ) (w : World) (r : Option Out)
    → PrintsLike 256 w.scratch (some t) r
    → length t < 2 ^ 31
    → elim r [ none ↦ fault | some o ↦ host_write (bytes_from (written o) 0 o.buf) w ]
      ≡ ok tt (logged (line t) w)
unfolding host_write
sprints t w none p h = absurd p
sprints t w (some o) p h = ap (λ b. ok tt (logged b w)) (written-line w.scratch t o p h)

pub sprint-line :
    (fmt : List ℕ) (vl : List Arg) (t : List ℕ) (w : World)
    → render fmt false false vl ≡ some t
    → length t < 2 ^ 31
    → sprint fmt vl w ≡ ok tt (logged (line t) w)
unfolding sprint vprintk
sprint-line fmt vl t w e h =
    sprints t w (vsnprintf w.scratch 256 fmt vl) (rw e at (vsnprintf-render 256 w.scratch fmt vl)) h

not_printed :
    (w : World) (r : Option Out)
    → PrintsLike 256 w.scratch none r
    → elim r [ none ↦ fault | some o ↦ host_write (bytes_from (written o) 0 o.buf) w ] ≡ fault
not_printed w none p = refl
not_printed w (some o) p = absurd p

-- A conversion that no argument matches is undefined behaviour.
pub sprint-fault :
    (fmt : List ℕ) (vl : List Arg) (w : World)
    → render fmt false false vl ≡ none
    → sprint fmt vl w ≡ fault
unfolding sprint vprintk
sprint-fault fmt vl w e =
    not_printed w (vsnprintf w.scratch 256 fmt vl) (rw e at (vsnprintf-render 256 w.scratch fmt vl))

one_write :
    (w : World) (r : Option Out)
    → (elim r [ none ↦ fault | some o ↦ host_write (bytes_from (written o) 0 o.buf) w ] ≡ fault)
      ⊎ ((bytes : List ℕ) × (elim r [
        | none ↦ fault
        | some o ↦ host_write (bytes_from (written o) 0 o.buf) w
      ]
            ≡ ok tt (logged bytes w)))
unfolding host_write
one_write w none = inl refl
one_write w (some o) = inr (_, refl)

-- `sprint` either meets undefined behaviour or makes one write, and does nothing else.
pub sprint-cases :
    (fmt : List ℕ) (vl : List Arg) (w : World)
    → (sprint fmt vl w ≡ fault) ⊎ ((bytes : List ℕ) × (sprint fmt vl w ≡ ok tt (logged bytes w)))
unfolding sprint vprintk
sprint-cases fmt vl w = one_write w (vsnprintf w.scratch 256 fmt vl)

some_write :
    (t : List ℕ) (w : World) (r : Option Out)
    → PrintsLike 256 w.scratch (some t) r
    → (bytes : List ℕ) × (elim r [
      | none ↦ fault
      | some o ↦ host_write (bytes_from (written o) 0 o.buf) w
    ]
        ≡ ok tt (logged bytes w))
unfolding host_write
some_write t w none p = absurd p
some_write t w (some o) p = (_, refl)

-- `sprint` returns whenever its format and arguments have a text, of any length.
pub sprint-ok :
    (fmt : List ℕ) (vl : List Arg) (t : List ℕ) (w : World)
    → render fmt false false vl ≡ some t
    → (bytes : List ℕ) × (sprint fmt vl w ≡ ok tt (logged bytes w))
unfolding sprint vprintk
sprint-ok fmt vl t w e =
    some_write t w (vsnprintf w.scratch 256 fmt vl)
      (rw e at (vsnprintf-render 256 w.scratch fmt vl))

-- `poweroff` and a failed `assert` do not return.
pub poweroff-After : {A : Type 0} (P : A → World → Type 0) (w : World) → After P (poweroff w)
unfolding poweroff
poweroff-After P w = elim (Bool-cases (w.htif == 0)) [
  | inl off ↦ rw off tt
  | inr on ↦ elim (sprint-cases (text "Power off\r\n") [] w) [
    | inl fails ↦ rw (on, fails) tt
    | inr (bytes, e) ↦ rw (on, e) tt
  ]
]

pub assert_fail-After :
    {A : Type 0} (P : A → World → Type 0) (file : List ℕ) (line : ℕ) (cond : List ℕ) (w : World)
    → After P (assert_fail file line cond w)
unfolding assert_fail
assert_fail-After P file line cond w =
    elim (sprint-cases (text "%s:%d: assertion failed: %s\n") (str file ∷ num line ∷ str cond ∷ [])
      w) [ inl fails ↦ rw fails tt | inr (bytes, e) ↦ rw e (poweroff-After P (logged bytes w)) ]
