-- ===== src/Spike/Dts/Says.antt =====
-- What the callbacks of the device-tree queries read: the texts of a property.
use mathlib.Core.Path.{subst}
use lq_os_lab.Base.{
  ℕ, ◌+◌, ◌≡◌, refl, ap, ◌∙◌, Bool, true, false, ◌&&◌, ◌||◌, List, [], ◌∷◌, if◌then◌else◌, inl, inr,
  Option-cases,
}
use lq_os_lab.Util.Strings.{literal, strcmp}
use lq_os_lab.Util.Strings.Lexical.{StandsAt}
use lq_os_lab.World.{World, ok, and_then, Cmd, After}
use lq_os_lab.World.Runs.{After-and_then}
use lq_os_lab.Spike.Dts.{text_is}
use lq_os_lab.Spike.Dts.Query.{both_are}
use lq_os_lab.Spike.Dts.Tree.{
  Property, Entry, skip, property, Children, end_node, fdt_end, skip_nop, child, PropertyAt,
}
use lq_os_lab.Util.Strings.Lexical.{same_text}
use lq_os_lab.Spike.Dts.Visit.{text_is-same}

-- A property has the name `s` and, as a text, the value `t`.
abbrev pub says : List ℕ → List ℕ → Property → Bool
says s t p = same_text p.name s && same_text p.value t

abbrev pub some_entry : (Property → Bool) → List Entry → Bool
some_entry q [] = false
some_entry q (skip ∷ es) = some_entry q es
some_entry q (property p ∷ es) = q p || some_entry q es

abbrev pub some_node : (List Entry → Bool) → Children → Bool
some_node q end_node = false
some_node q fdt_end = false
some_node q (skip_nop c) = some_node q c
some_node q (child name es sub c) = q es || some_node q sub || some_node q c

both-then :
    (b d : Bool) (k : Cmd Bool) (w : World)
    → k w ≡ ok d w
    → (if b then k else ok false) w ≡ ok (b && d) w
both-then true d k w e = e
both-then false d k w e = refl

pub both_are-says :
    (s t : List ℕ) (strings lex : ℕ) (p : Property) (w : World)
    → StandsAt (literal s) 0 s
    → StandsAt (literal t) 0 t
    → PropertyAt w.mem strings lex p
    → both_are (strings + p.offset) s (lex + 12) t w ≡ ok (says s t p) w
unfolding both_are
both_are-says s t strings lex p w ls lt h =
    ap (λ r. and_then r λ a. if a then text_is (lex + 12) t else ok false)
      (text_is-same (strings + p.offset) p.name s w h.5 ls)
    ∙ both-then (same_text p.name s) (same_text p.value t) (text_is (lex + 12) t) w
        (text_is-same (lex + 12) p.value t w h.6 lt)

-- The memory stays.
abbrev pub Keeps : {A : Type 0} → World → A → World → Type 0
Keeps w a v = v.mem ≡ w.mem

pub text_is-Keeps : (p : ℕ) (s : List ℕ) (w : World) → After (Keeps w) (text_is p s w)
unfolding text_is
text_is-Keeps p s w = elim (Option-cases (strcmp (λ i. w.mem (p + i)) (literal s))) [
  | inl stuck ↦ rw stuck tt
  | inr (d, e) ↦ rw e refl
]

pub both_are-Keeps :
    (p : ℕ) (s : List ℕ) (q : ℕ) (t : List ℕ) (w : World) → After (Keeps w) (both_are p s q t w)
unfolding both_are
both_are-Keeps p s q t w =
    After-and_then (Keeps w) (Keeps w) (text_is p s w) _ (text_is-Keeps p s w) λ a v e.
      elim a as (λ a. After (Keeps w) ((if a then text_is q t else ok false) v)) [
        | true ↦ subst (λ m. After (λ _ u. u.mem ≡ m) (text_is q t v)) e (text_is-Keeps q t v)
        | false ↦ e
      ]
