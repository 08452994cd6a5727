-- ===== src/Prelude/Elements.antt =====
-- What a list that is selected, mapped or tested holds.
use mathlib.Core.Path.{◌≡◌, refl, sym, ap, ◌∙◌}
use mathlib.Core.Path.{subst}
use mathlib.Core.Logic.{inl, inr}
use mathlib.Core.Bool.{Bool, true, ◌||◌}
use mathlib.Core.List.{List, [], ◌∷◌, map}
use lodestar_server.Prelude.Lists.{Among, any, select}
use lodestar_server.Prelude.Tests.{if◌then◌else◌, Bool-cases}

module _ {A : Type 0} where
  pub Among-select :
      (p : A → Bool) (xs : List A) (x : A) → Among x (select p xs) → Among x xs × (p x ≡ true)
  Among-select p [] x a = absurd a
  Among-select p (y ∷ ys) x a = elim (Bool-cases (p y)) [
    | inl t ↦ elim (subst (λ b. Among x (if b then y ∷ select p ys else select p ys)) t a) [
      | inl e ↦ (inl e, ap p e ∙ t)
      | inr rest ↦ let (at, passes) = Among-select p ys x rest in (inr at, passes)
    ]
    | inr f ↦
        let rest : Among x (select p ys) =
          subst (λ b. Among x (if b then y ∷ select p ys else select p ys)) f a in
        let (at, passes) = Among-select p ys x rest in (inr at, passes)
  ]

  pub select-Among :
      (p : A → Bool) (xs : List A) (x : A) → Among x xs → p x ≡ true → Among x (select p xs)
  select-Among p [] x a h = absurd a
  select-Among p (y ∷ ys) x (inl e) h = let t : p y ≡ true = sym (ap p e) ∙ h in rw t (inl e)
  select-Among p (y ∷ ys) x (inr a) h = elim (Bool-cases (p y)) [
    | inl t ↦ rw t (inr (select-Among p ys x a h))
    | inr f ↦ rw f (select-Among p ys x a h)
  ]

pub Among-map :
    {A B : Type 0} (f : A → B) (xs : List A) (y : B)
    → Among y (map f xs)
    → (x : A) × Among x xs × (y ≡ f x)
Among-map f [] y a = absurd a
Among-map f (x ∷ xs) y (inl e) = (x, inl refl, e)
Among-map f (x ∷ xs) y (inr a) = let (z, at, e) = Among-map f xs y a in (z, inr at, e)

pub map-Among :
    {A B : Type 0} (f : A → B) (xs : List A) (x : A) → Among x xs → Among (f x) (map f xs)
map-Among f [] x a = absurd a
map-Among f (y ∷ ys) x (inl e) = inl (ap f e)
map-Among f (y ∷ ys) x (inr a) = inr (map-Among f ys x a)

-- A test of any element.
pub any-Among :
    {A : Type 0} (p : A → Bool) (xs : List A)
    → any p xs ≡ true
    → (x : A) × Among x xs × (p x ≡ true)
any-Among p [] h = absurd (cc h)
any-Among p (y ∷ ys) h = elim (Bool-cases (p y)) [
  | inl t ↦ (y, inl refl, t)
  | inr f ↦
      let (x, at, passes) = any-Among p ys (sym (ap (λ b. b || any p ys) f) ∙ h) in
      (x, inr at, passes)
]

pub Among-any :
    {A : Type 0} (p : A → Bool) (xs : List A) (x : A) → Among x xs → p x ≡ true → any p xs ≡ true
Among-any p [] x a h = absurd a
Among-any p (y ∷ ys) x (inl e) h = rw (sym (ap p e) ∙ h) refl
Among-any p (y ∷ ys) x (inr a) h = elim (Bool-cases (p y)) [
  | inl t ↦ rw t refl
  | inr f ↦ rw f (Among-any p ys x a h)
]
