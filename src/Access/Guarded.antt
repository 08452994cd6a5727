-- ===== src/Access/Guarded.antt =====
-- Which requests pass the guards of src/auth/auth.guard.ts and permission.guard.ts, in terms of the header's
-- text and of the two lists of permissions.
use Prim.Native.Char.{code}
use Prim.Native.String.{[], ◌∷◌, ◌++◌}
use mathlib.Core.Path.{subst}
use text.Mathlib.TextEquality.{Char-path}
use text.Mathlib.TextLemmas.{nil-append, cons-append}
use lodestar_server.Prelude.{
  String, ◌≡◌, ◌≢◌, ◌↔◌, refl, sym, ap, ◌∙◌, true, false, Option, none, some, List, any, ◌==◌, eqb,
  Bool-cases, Option-cases, inl, inr, eq_iff, arith, Among, any-Among, Among-any,
}
use lodestar_server.Access.{
  Claims, passes, unauthorized, word, after_space, bearer, extract_token_from_header, is_authorized,
  of_verified, can_activate_permissions, can_activate_auth, guarded,
}

-- A text without spaces; one that is empty or starts with a space.
abbrev SpaceFree : String → Type 0
SpaceFree [] = Unit
SpaceFree (c ∷ s) = (eqb (code c) 32 ≡ false) × SpaceFree s

abbrev AtSpace : String → Type 0
AtSpace [] = Unit
AtSpace (c ∷ s) = eqb (code c) 32 ≡ true

word_lem :
    (s : String) → SpaceFree (word s) × ((rest : String) × (s ≡ word s ++ rest) × AtSpace rest)
unfolding word
word_lem [] = (tt, ("", sym (nil-append ""), tt))
word_lem (c ∷ s) = elim (Bool-cases (eqb (code c) 32)) [
  | inl space ↦ rw space (tt, (c ∷ s, sym (nil-append (c ∷ s)), space))
  | inr other ↦
      let (free, (rest, e, ends)) = word_lem s in
      rw other ((other, free), (rest, ap (λ t. c ∷ t) e ∙ sym (cons-append c (word s) rest), ends))
]

word-append : (t rest : String) → SpaceFree t → AtSpace rest → word (t ++ rest) ≡ t
unfolding word
word-append [] [] free ends = refl
word-append [] (c ∷ rest) free ends = ap word (nil-append (c ∷ rest)) ∙ rw ends refl
word-append (c ∷ t) rest free ends =
    ap word (cons-append c t rest) ∙ rw (free.0, word-append t rest free.1 ends) refl

after_space-append : (t u : String) → SpaceFree t → after_space (t ++ (" " ++ u)) ≡ some u
unfolding after_space
after_space-append [] u free =
    ap after_space (nil-append (" " ++ u) ∙ cons-append " " "" u ∙ ap (λ v. " " ∷ v) (nil-append u))
after_space-append (c ∷ t) u free =
    ap after_space (cons-append c t (" " ++ u)) ∙ rw (free.0, after_space-append t u free.1) refl

after_space-some : (s u : String) → after_space s ≡ some u → s ≡ word s ++ (" " ++ u)
unfolding after_space word
after_space-some [] u e = absurd (cc e)
after_space-some (c ∷ s) u e = elim (Bool-cases (eqb (code c) 32)) [
  | inl space ↦
      let same : s ≡ u = (let f : Path (Option String) (some s) (some u) = rw space at e in cc f) in
      let blank : c ≡ " " = Char-path c " " (ground (arith, space)) in
      rw space (
        ap (λ d. d ∷ s) blank
        ∙ ap (λ v. " " ∷ v) (same ∙ sym (nil-append u))
        ∙ sym (cons-append " " "" u)
        ∙ sym (nil-append (" " ++ u)))
  | inr other ↦
      let rest : after_space s ≡ some u = rw other at e in
      rw other
        (ap (λ t. c ∷ t) (after_space-some s u rest) ∙ sym (cons-append c (word s) (" " ++ u)))
]

-- The header is `Bearer`, a space and the token, which ends at the next space.
abbrev pub IsBearer : Option String → String → Type 0
IsBearer none token = ⊥
IsBearer (some text) token =
    SpaceFree token
    × ((rest : String) × (text ≡ "Bearer" ++ (" " ++ (token ++ rest))) × AtSpace rest)

extract_token-IsBearer :
    (authorization : Option String) (token : String)
    → extract_token_from_header authorization ≡ some token
    → IsBearer authorization token
unfolding extract_token_from_header
extract_token-IsBearer none token e = cc
extract_token-IsBearer (some text) token e = elim (Option-cases (after_space text)) [
  | inl nothing ↦
      absurd (let f : Path (Option String) none (some token) = rw (bearer, nothing) at e in cc f)
  | inr (u, at) ↦ elim (Bool-cases (word text == "Bearer")) [
    | inr other ↦
        absurd
          (let f : Path (Option String) none (some token) = rw (bearer, at, other) at e in cc f)
    | inl named ↦
        let same : word u ≡ token =
          (let f : Path (Option String) (some (word u)) (some token) =
              rw (bearer, at, named) at e in
            cc f) in
        let (free, (rest, whole, ends)) = word_lem u in
        (
          subst SpaceFree same free,
          (
            rest,
            after_space-some text u at
                ∙ ap (λ v. v ++ (" " ++ u)) ((eq_iff (word text) "Bearer").0 named)
                ∙ ap (λ v. "Bearer" ++ (" " ++ v)) (whole ∙ ap (λ v. v ++ rest) same),
            ends,
          ),
        )
  ]
]

IsBearer-extract_token :
    (authorization : Option String) (token : String)
    → IsBearer authorization token
    → extract_token_from_header authorization ≡ some token
unfolding extract_token_from_header
IsBearer-extract_token none token h = absurd h
IsBearer-extract_token (some text) token (free, (rest, whole, ends)) =
    let plain : SpaceFree "Bearer" = (refl, (refl, (refl, (refl, (refl, (refl, tt)))))) in
    let first : word text ≡ "Bearer" =
      ap word whole
      ∙ word-append "Bearer" (" " ++ (token ++ rest)) plain
          (rw (cons-append " " "" (token ++ rest)) refl) in
    let second : after_space text ≡ some (token ++ rest) =
      ap after_space whole ∙ after_space-append "Bearer" (token ++ rest) plain in
    rw (first, second) (ap some (word-append token rest free ends))

-- A permission that both lists have.
abbrev pub SharePermission : List String → List String → Type 0
SharePermission current required = (p : String) × Among p current × Among p required

is_authorized_iff :
    (current required : List String)
    → (is_authorized current required ≡ true) ↔ SharePermission current required
unfolding is_authorized
is_authorized_iff current required = (
  λ h.
      (let (p, held, asked) = any-Among (λ p. any (λ q. q == p) required) current h in
        let (q, listed, same) = any-Among (λ q. q == p) required asked in
        (p, held, subst (λ x. Among x required) ((eq_iff q p).0 same) listed)),
  λ (p, held, asked).
      Among-any (λ p. any (λ q. q == p) required) current p held
        (Among-any (λ q. q == p) required p asked ((eq_iff p p).1 refl)),
)

module _ (verify : String → Option Claims) where
  passed_iff :
      (required : List String) (member : Claims) (found : Option Claims)
      → ((elim (of_verified found) [
        | passes m ↦ can_activate_permissions (some required) m
        | unauthorized ↦ unauthorized
      ])
          ≡ passes (some member))
        ↔ ((found ≡ some member) × SharePermission member.permissions required)
  unfolding can_activate_permissions
  passed_iff required member none = (λ h. cc, λ (e, f). cc)
  passed_iff required member (some m) = elim (Bool-cases (is_authorized m.permissions required)) [
    | inl has ↦ rw has (
      λ h.
          (let same : m ≡ member = cc in
            (
              ap some same,
              subst (λ x. SharePermission x.permissions required) same
                  ((is_authorized_iff m.permissions required).0 has),
            )),
      λ (e, f). (let same : m ≡ member = cc in ap (λ x. passes (some x)) same),
    )
    | inr lacks ↦ rw lacks (
      λ h. cc,
      λ (e, f).
          (let same : m ≡ member = cc in
            cc (
              sym lacks
              ∙ ap (λ x. is_authorized x.permissions required) same
              ∙ (is_authorized_iff member.permissions required).1 f)),
    )
  ]

  -- An endpoint that asks for permissions is reached, with a member set, exactly where the header is
  -- `Bearer`, a space and a token that is not empty and ends at the next space or with the header, the token
  -- verifies to that member, and one of the member's permissions is among those that are asked for.
  pub guarded_iff :
      (required : List String) (authorization : Option String) (member : Claims)
      → (guarded verify (some required) authorization ≡ passes (some member)) ↔ (
          (token : String) × IsBearer authorization token
          × (token ≢ "")
          × (verify token ≡ some member)
          × SharePermission member.permissions required)
  unfolding guarded can_activate_auth
  guarded_iff required authorization member =
      elim (Option-cases (extract_token_from_header authorization)) [
        | inl absent ↦
            rw (guarded, absent)
              (
                λ h. cc,
                λ (token, e, f, g, h).
                    cc (sym absent ∙ IsBearer-extract_token authorization token e),
              )
        | inr (token, sent) ↦ elim (Bool-cases (token == "")) [
          | inl empty ↦
              rw (guarded, sent, empty)
                (
                  λ h. cc,
                  λ (t, e, f, g, h).
                      (let same : t ≡ token =
                          cc (sym (IsBearer-extract_token authorization t e) ∙ sent) in
                        absurd (f (same ∙ (eq_iff token "").0 empty))),
                )
          | inr given ↦
              rw (guarded, sent, given)
                (
                  λ h.
                      (let (verified, has) = (passed_iff required member (verify token)).0 h in
                        (
                          token,
                          extract_token-IsBearer authorization token sent,
                          ground (arith, given, eq_iff token ""),
                          verified,
                          has,
                        )),
                  λ (t, e, f, g, h).
                      (let same : t ≡ token =
                          cc (sym (IsBearer-extract_token authorization t e) ∙ sent) in
                        (passed_iff required member (verify token)).1
                          (ap verify (sym same) ∙ g, h)),
                )
        ]
      ]
