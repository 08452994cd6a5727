-- ===== src/Auth/Legacy.antt =====
-- src/auth/legacy-token-endpoint.middleware.ts: the retired token endpoint under its aliases. The path of
-- `parse(originalUrl)` is the argument.
use Prim.Native.Char.{Char, code}
use Prim.Native.String.{[], ◌∷◌, ◌++◌}
use text.Mathlib.TextLemmas.{nil-append, cons-append}
use lodestar_server.Prelude.{
  String, ◌≡◌, ◌∙◌, refl, sym, ap, Bool, true, false, ◌&&◌, ◌||◌, Option, some, ◌==◌, eqb,
  if◌then◌else◌, or_blank, Bool-cases, inl, inr, arith,
}
use lodestar_server.Prelude.Ascii.{to_lower_case}

abbrev starts_slash : String → Bool
starts_slash [] = false
starts_slash (c ∷ s) = eqb (code c) b'/'

-- `.replace(/\/+/g, '/')`
unfoldable collapse_slashes : String → String
collapse_slashes [] = []
collapse_slashes (c ∷ s) =
    let rest = collapse_slashes s in if eqb (code c) b'/' && starts_slash s then rest else c ∷ rest

-- `.replace(/\/$/, '')`
abbrev drop_last_slash : String → String
drop_last_slash [] = []
drop_last_slash (c ∷ []) = if eqb (code c) b'/' then [] else c ∷ []
drop_last_slash (c ∷ d ∷ s) = c ∷ drop_last_slash (d ∷ s)

unfoldable normalize_path : Option String → String
unfolding collapse_slashes to_lower_case
normalize_path pathname = to_lower_case (drop_last_slash (collapse_slashes (or_blank pathname)))

data Passage : Type 0 where
  retired : Passage
  next : Passage

-- legacyTokenEndpointMiddleware: the answer of status 503, or the next handler.
unfoldable legacy_token_endpoint : String → Option String → Passage
unfolding normalize_path
legacy_token_endpoint method pathname =
    let path = normalize_path pathname in
    if (method == "POST") && ((path == "/api/v1/auth/token") || (path == "/api/v2/auth/token"))
    then retired
    else next

-- Two slashes in a row, and one.
starts_slash-slash : (s : String) → starts_slash ("/" ++ s) ≡ true
starts_slash-slash s = ap starts_slash (cons-append "/" "" s)

starts_slash-append :
    (a s t : String)
    → starts_slash s ≡ starts_slash t
    → starts_slash (a ++ s) ≡ starts_slash (a ++ t)
starts_slash-append [] s t e =
    ap starts_slash (nil-append s) ∙ e ∙ sym (ap starts_slash (nil-append t))
starts_slash-append (c ∷ a) s t e =
    ap starts_slash (cons-append c a s) ∙ sym (ap starts_slash (cons-append c a t))

collapse-double : (b : String) → collapse_slashes ("/" ++ ("/" ++ b)) ≡ collapse_slashes ("/" ++ b)
unfolding collapse_slashes
collapse-double b =
    ap collapse_slashes (cons-append "/" "" ("/" ++ b))
    ∙ rw (nil-append ("/" ++ b), starts_slash-slash b) refl

collapse-append :
    (a s t : String)
    → starts_slash s ≡ starts_slash t
    → collapse_slashes s ≡ collapse_slashes t
    → collapse_slashes (a ++ s) ≡ collapse_slashes (a ++ t)
unfolding collapse_slashes
collapse-append [] s t e f =
    ap collapse_slashes (nil-append s) ∙ f ∙ sym (ap collapse_slashes (nil-append t))
collapse-append (c ∷ a) s t e f =
    let heads = starts_slash-append a s t e in
    let tails = collapse-append a s t e f in
    ap collapse_slashes (cons-append c a s)
    ∙ rw (heads, tails) refl
    ∙ sym (ap collapse_slashes (cons-append c a t))

-- What is left of a path with a character is no empty text.
drop-cons :
    (c d : Char) (s : String)
    → drop_last_slash (c ∷ collapse_slashes (d ∷ s))
      ≡ c ∷ drop_last_slash (collapse_slashes (d ∷ s))
unfolding collapse_slashes
drop-cons c d [] = ground arith
drop-cons c d (e ∷ s) = elim (Bool-cases (eqb (code d) b'/' && starts_slash (e ∷ s))) [
  | inl both ↦ rw both (drop-cons c e s)
  | inr other ↦ rw other refl
]

drop-trailing :
    (a : String)
    → drop_last_slash (collapse_slashes (a ++ "/")) ≡ drop_last_slash (collapse_slashes a)
unfolding collapse_slashes
drop-trailing [] = ap (λ s. drop_last_slash (collapse_slashes s)) (nil-append "/")
drop-trailing (c ∷ []) =
    ap (λ s. drop_last_slash (collapse_slashes s))
      (cons-append c "" "/" ∙ ap (λ s. c ∷ s) (nil-append "/"))
    ∙ elim (Bool-cases (eqb (code c) b'/')) [
      | inl t ↦ rw (drop_last_slash, t) (ground arith)
      | inr f ↦ rw f (ground arith)
    ]
drop-trailing (c ∷ d ∷ a) =
    let more = drop-trailing (d ∷ a) in
    let shape : (c ∷ d ∷ a) ++ "/" ≡ c ∷ d ∷ (a ++ "/") =
      cons-append c (d ∷ a) "/" ∙ ap (λ s. c ∷ s) (cons-append d a "/") in
    let tail : drop_last_slash (collapse_slashes (d ∷ (a ++ "/")))
        ≡ drop_last_slash (collapse_slashes (d ∷ a)) =
      sym (ap (λ s. drop_last_slash (collapse_slashes s)) (cons-append d a "/")) ∙ more in
    ap (λ s. drop_last_slash (collapse_slashes s)) shape
    ∙ elim (Bool-cases (eqb (code c) b'/' && eqb (code d) b'/')) [
      | inl both ↦ rw both tail
      | inr other ↦
          rw other (drop-cons c d (a ++ "/") ∙ ap (λ s. c ∷ s) tail ∙ sym (drop-cons c d a))
    ]

-- A path is answered like each of its aliases: with a slash doubled anywhere, and with one more slash at
-- its end.
legacy_token_endpoint_alias :
    (method a b : String)
    → (legacy_token_endpoint method (some (a ++ ("/" ++ ("/" ++ b))))
        ≡ legacy_token_endpoint method (some (a ++ ("/" ++ b))))
      × (legacy_token_endpoint method (some (a ++ "/")) ≡ legacy_token_endpoint method (some a))
unfolding legacy_token_endpoint normalize_path
legacy_token_endpoint_alias method a b =
    let double : collapse_slashes (a ++ ("/" ++ ("/" ++ b))) ≡ collapse_slashes (a ++ ("/" ++ b)) =
      collapse-append a _ _ (starts_slash-slash ("/" ++ b) ∙ sym (starts_slash-slash b))
        (collapse-double b) in
    (rw double refl, rw (drop-trailing a) refl)
