-- ===== src/Cors/Marked.antt =====
-- The Sec-Fetch-Site header of src/auth/same-site.guard.ts as a text of parts between commas: when the guard
-- takes a request for one that is marked cross-site.
use Prim.Native.Char.{Char, code}
use Prim.Native.String.{[], ◌∷◌, ◌++◌}
use mathlib.Core.Path.{subst}
use text.Mathlib.TextEquality.{Char-path}
use text.Mathlib.TextLemmas.{nil-append, cons-append}
use lodestar_server.Prelude.{
  String, ◌≡◌, ◌↔◌, ◌⊎◌, refl, sym, ap, ◌∙◌, Bool, true, false, not, List, select, map, eqb, ◌==◌,
  or_blank, Bool-cases, inl, inr, eq_iff, arith, Among, Among-select, select-Among, Among-map,
  map-Among, any-Among, Among-any,
}
use lodestar_server.Prelude.Ascii.{trim, to_lower_case}
use lodestar_server.Cors.Origin.{includes}
use lodestar_server.Cors.Guard.{
  RequestHeaders, header_value, push_char, split_commas, fetch_site_values,
}

abbrev CommaFree : String → Type 0
CommaFree [] = Unit
CommaFree (c ∷ s) = (eqb (code c) 44 ≡ false) × CommaFree s

-- A part of a text, between commas or its ends.
pub data IsPart (part : String) : String → Type 0 where
  whole : CommaFree part → IsPart part part
  first : (text rest : String) → CommaFree part → text ≡ part ++ ("," ++ rest) → IsPart part text
  later :
      (text other rest : String)
      → CommaFree other
      → text ≡ other ++ ("," ++ rest)
      → IsPart part rest
      → IsPart part text

split-whole : (t : String) → CommaFree t → split_commas t ≡ List.◌∷◌ t List.[]
unfolding split_commas
split-whole [] free = refl
split-whole (c ∷ t) free = rw (free.0, split-whole t free.1) refl

split-append :
    (t u : String) → CommaFree t → split_commas (t ++ ("," ++ u)) ≡ List.◌∷◌ t (split_commas u)
unfolding split_commas
split-append [] u free =
    ap split_commas
      (nil-append ("," ++ u) ∙ cons-append "," "" u ∙ ap (λ v. "," ∷ v) (nil-append u))
split-append (c ∷ t) u free =
    ap split_commas (cons-append c t ("," ++ u)) ∙ rw (free.0, split-append t u free.1) refl

IsPart-split : (part text : String) → IsPart part text → Among part (split_commas text)
IsPart-split part text (whole free) = rw (split-whole part free) (inl refl)
IsPart-split part text (first _ rest free e) =
    rw (ap split_commas e ∙ split-append part rest free) (inl refl)
IsPart-split part text (later _ other rest free e h) =
    rw (ap split_commas e ∙ split-append other rest free) (inr (IsPart-split part rest h))

-- The first part of a text, and what is after it.
abbrev Follows : String → String → List String → Type 0
Follows s x xs =
    ((s ≡ x) × (xs ≡ List.[])) ⊎ ((u : String) × (s ≡ x ++ ("," ++ u)) × (xs ≡ split_commas u))

split-first :
    (s : String)
    → (x : String) × (xs : List String) × (split_commas s ≡ List.◌∷◌ x xs)
      × CommaFree x
      × Follows s x xs
unfolding split_commas
split-first [] = ("", List.[], refl, tt, inl (refl, refl))
split-first (c ∷ s) = elim (Bool-cases (eqb (code c) 44)) [
  | inl comma ↦
      let same : c ≡ "," = Char-path c "," (ground (arith, comma)) in
      let cut : c ∷ s ≡ "" ++ ("," ++ s) =
        ap (λ d. d ∷ s) same
        ∙ ap (λ v. "," ∷ v) (sym (nil-append s))
        ∙ sym (cons-append "," "" s)
        ∙ sym (nil-append ("," ++ s)) in
      ("", split_commas s, rw comma refl, tt, inr (s, cut, refl))
  | inr other ↦
      let (x, xs, found, free, how) = split-first s in
      (
        c ∷ x,
        xs,
        rw (other, found) refl,
        (other, free),
        elim how [
          | inl (e, last) ↦ inl (ap (λ t. c ∷ t) e, last)
          | inr (u, e, rest) ↦ inr (u, ap (λ t. c ∷ t) e ∙ sym (cons-append c x ("," ++ u)), rest)
        ],
      )
]

-- A part that is not the first one.
abbrev Later : String → String → Type 0
Later part s =
    (other : String) × (u : String) × CommaFree other × (s ≡ other ++ ("," ++ u)) × IsPart part u

later-part : (part s : String) → Later part s → IsPart part s
later-part part s (other, u, free, e, h) = later s other u free e h

Later-cons :
    (part s : String) (c : Char) → eqb (code c) 44 ≡ false → Later part s → Later part (c ∷ s)
Later-cons part s c differs (other, u, free, e, h) =
    (c ∷ other, u, (differs, free), ap (λ t. c ∷ t) e ∙ sym (cons-append c other ("," ++ u)), h)

abbrev tail_of : List String → List String
tail_of List.[] = List.[]
tail_of (List.◌∷◌ x xs) = xs

tail_of-push_char : (c : Char) (xs : List String) → tail_of (push_char c xs) ≡ tail_of xs
tail_of-push_char c List.[] = refl
tail_of-push_char c (List.◌∷◌ x xs) = refl

part_of_Later :
    (part s : String)
    → (Among part (tail_of (split_commas s)) → Later part s)
    → Among part (split_commas s)
    → IsPart part s
part_of_Later part s rest a =
    let (x, xs, found, free, how) = split-first s in
    elim (subst (λ ys. Among part ys) found a) [
      | inr deeper ↦
          later-part part s (rest (subst (λ ys. Among part (tail_of ys)) (sym found) deeper))
      | inl e ↦ elim how [
        | inl (same, none_left) ↦
            subst (IsPart part) (e ∙ sym same) (whole (subst CommaFree (sym e) free))
        | inr (u, cut, after) ↦
            first s u (subst CommaFree (sym e) free) (cut ∙ ap (λ t. t ++ ("," ++ u)) (sym e))
      ]
    ]

tail-Later : (part s : String) → Among part (tail_of (split_commas s)) → Later part s
unfolding split_commas
tail-Later part [] a = absurd a
tail-Later part (c ∷ s) a = elim (Bool-cases (eqb (code c) 44)) [
  | inl comma ↦
      let same : c ≡ "," = Char-path c "," (ground (arith, comma)) in
      let a' : Among part (split_commas s) = rw comma at a in
      (
        "",
        s,
        tt,
        ap (λ d. d ∷ s) same
            ∙ ap (λ v. "," ∷ v) (sym (nil-append s))
            ∙ sym (cons-append "," "" s)
            ∙ sym (nil-append ("," ++ s)),
        part_of_Later part s (tail-Later part s) a',
      )
  | inr other ↦
      let a' : Among part (tail_of (push_char c (split_commas s))) = rw other at a in
      Later-cons part s c other
        (tail-Later part s (subst (λ ys. Among part ys) (tail_of-push_char c (split_commas s)) a'))
]

-- A comma-separated part of the header, which is empty where it is missing, reads cross-site, but for
-- blanks around it and for case.
abbrev pub IsMarked : RequestHeaders → Type 0
IsMarked headers =
    (part : String) × IsPart part (or_blank (header_value headers "sec-fetch-site"))
    × (to_lower_case (trim part) ≡ "cross-site")

pub fetch_site_values_iff :
    (headers : RequestHeaders)
    → (includes (fetch_site_values headers) "cross-site" ≡ true) ↔ IsMarked headers
unfolding fetch_site_values
fetch_site_values_iff headers =
    let text = or_blank (header_value headers "sec-fetch-site") in
    let norm : String → String = λ value. to_lower_case (trim value) in
    let kept : String → Bool = λ value. not (value == "") in
    (
      λ h.
          (let (v, at, same) = any-Among _ (select kept (map norm (split_commas text))) h in
            let is = (eq_iff v "cross-site").0 same in
            let (mapped, _) = Among-select kept (map norm (split_commas text)) v at in
            let (part, among, e) = Among-map norm (split_commas text) v mapped in
            (part, part_of_Later part text (tail-Later part text) among, sym e ∙ is)),
      λ (part, h, is).
          Among-any _ (select kept (map norm (split_commas text))) (norm part)
            (select-Among kept (map norm (split_commas text)) (norm part)
              (map-Among norm (split_commas text) part (IsPart-split part text h)) (rw is refl))
            ((eq_iff (norm part) "cross-site").1 is),
    )
