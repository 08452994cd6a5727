-- ===== src/Prelude/Texts.antt =====
-- An optional text, and texts joined from parts: what tells two of them apart.
use Prim.Native.Char.{code}
use Prim.Native.String.{String, [], ◌∷◌, ◌++◌}
use mathlib.Core.Path.{◌≡◌, refl, ap, ap₂, sym, ◌∙◌}
use mathlib.Core.Logic.{◌≢◌}
use mathlib.Core.Bool.{Bool, true, false}
use mathlib.Core.Option.{Option, none, some}
use native.Mathlib.Omega.{arith}
use text.Mathlib.TextLemmas.{
  nil-append, cons-append, append_cancel_left, head-eq_of_cons-eq, tail-eq_of_cons-eq,
}
use lodestar_server.Prelude.Tests.{eqb, if◌then◌else◌}

-- `text || ''`
abbrev pub or_blank : Option String → String
or_blank none = ""
or_blank (some s) = s

-- Two texts differ at a place that both have.
abbrev pub apart : String → String → Bool
apart [] t = false
apart (c ∷ s) [] = false
apart (c ∷ s) (d ∷ t) = if eqb (code c) (code d) then apart s t else true

-- Texts with prefixes that differ at a place are different.
pub append-ne_of_apart : (p q s t : String) → apart p q ≡ true → p ++ s ≢ q ++ t
append-ne_of_apart [] q s t h e = cc
append-ne_of_apart (c ∷ p) [] s t h e = cc
append-ne_of_apart (c ∷ p) (d ∷ q) s t h e =
    let e' : Path String (c ∷ (p ++ s)) (d ∷ (q ++ t)) =
      sym (cons-append c p s) ∙ e ∙ cons-append d q t in
    ground (
      arith,
      ap code (head-eq_of_cons-eq e'),
      λ (k : apart p q ≡ true). append-ne_of_apart p q s t k (tail-eq_of_cons-eq e'),
    )

-- No character of the text is a colon, the separator of the keys.
abbrev pub ColonFree : String → Type 0
ColonFree [] = Unit
ColonFree (c ∷ s) = (code c ≢ b':') × ColonFree s

-- A colon-free part is read back from the text that goes on with a colon.
pub append_colon_inj :
    (a b s t : String)
    → ColonFree a
    → ColonFree b
    → a ++ (":" ++ s) ≡ b ++ (":" ++ t)
    → (a ≡ b) × (s ≡ t)
append_colon_inj [] [] s t h k e =
    (refl, append_cancel_left ":" s t (sym (nil-append _) ∙ e ∙ nil-append _))
append_colon_inj [] (d ∷ b) s t h k e =
    let e' : Path String (":" ++ s) (d ∷ (b ++ (":" ++ t))) =
      sym (nil-append (":" ++ s)) ∙ e ∙ cons-append d b (":" ++ t) in
    absurd (k.0 (sym (ap code (head-eq_of_cons-eq (sym (cons-append ":" "" s) ∙ e')))))
append_colon_inj (c ∷ a) [] s t h k e =
    let e' : Path String (c ∷ (a ++ (":" ++ s))) (":" ++ t) =
      sym (cons-append c a (":" ++ s)) ∙ e ∙ nil-append (":" ++ t) in
    absurd (h.0 (ap code (head-eq_of_cons-eq (e' ∙ cons-append ":" "" t))))
append_colon_inj (c ∷ a) (d ∷ b) s t h k e =
    let e' : Path String (c ∷ (a ++ (":" ++ s))) (d ∷ (b ++ (":" ++ t))) =
      sym (cons-append c a (":" ++ s)) ∙ e ∙ cons-append d b (":" ++ t) in
    let (same, rest) = append_colon_inj a b s t h.1 k.1 (tail-eq_of_cons-eq e') in
    (ap₂ ◌∷◌ (head-eq_of_cons-eq e') same, rest)

-- A colon-free text is no text with a colon.
pub colon-ne_ColonFree : (a b s : String) → ColonFree b → a ++ (":" ++ s) ≢ b
colon-ne_ColonFree [] [] s k e = cc (sym (cons-append ":" "" s) ∙ sym (nil-append _) ∙ e)
colon-ne_ColonFree [] (d ∷ b) s k e =
    let e' : Path String (":" ++ s) (d ∷ b) = sym (nil-append (":" ++ s)) ∙ e in
    absurd (k.0 (sym (ap code (head-eq_of_cons-eq (sym (cons-append ":" "" s) ∙ e')))))
colon-ne_ColonFree (c ∷ a) [] s k e = cc (sym (cons-append c a (":" ++ s)) ∙ e)
colon-ne_ColonFree (c ∷ a) (d ∷ b) s k e =
    let e' : Path String (c ∷ (a ++ (":" ++ s))) (d ∷ b) = sym (cons-append c a (":" ++ s)) ∙ e in
    colon-ne_ColonFree a b s k.1 (tail-eq_of_cons-eq e')
