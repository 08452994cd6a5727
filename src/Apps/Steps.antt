-- ===== src/Apps/Steps.antt =====
-- The steps of setAppCache in src/app/app.service.ts: what each does to its key, and to the others.
use Prim.Native.String.{◌++◌}
use package.text.Mathlib.TextLemmas.{append_cancel_left, append-nil}
use lodestar_server.Prelude.{
  String, ◌≡◌, ◌≢◌, ◌∙◌, refl, sym, ap, true, false, Option, none, some, List, [], ◌∷◌, ◌==◌,
  if◌then◌else◌, or_blank, arith, eq_iff, eq_refl, Bool-cases, inl, inr, append-ne_of_apart,
}
use lodestar_server.Redis.{Redis, object, members, text, entry, fields_of, with_fields}
use lodestar_server.Auth.Keys.Distinct.{==-eq-false_of_ne}
use lodestar_server.Apps.Recent.{SameHosts, sadd_all-members, sadd_all-ne}
use lodestar_server.Apps.Info.{
  app_key, host_key, is_cons, is_filled_text, cache_fields, cache_modules, cache_org_id, text_at,
}

-- The keys of one app, told apart by what follows its id.
pub suffix_apart :
    (id a b : String) → a ≢ b → (("app:" ++ (id ++ a)) == ("app:" ++ (id ++ b))) ≡ false
suffix_apart id a b ne =
    ==-eq-false_of_ne _ _ (λ e. ne (append_cancel_left id a b (append_cancel_left "app:" _ _ e)))

pub app_key_apart : (id b : String) → "" ≢ b → (app_key id == ("app:" ++ (id ++ b))) ≡ false
app_key_apart id b ne =
    ap (λ t. ("app:" ++ t) == ("app:" ++ (id ++ b))) (sym (append-nil id)) ∙ suffix_apart id "" b ne

pub host_apart : (host t : String) → (host_key host == ("app:" ++ t)) ≡ false
host_apart host t = ==-eq-false_of_ne _ _ (append-ne_of_apart "host:" "app:" host t refl)

-- Texts that compare as different are different.
pub texts_differ : (s t : String) → (s == t) ≡ false → s ≢ t
texts_differ s t h e = ground (arith, eq_iff s t)

module _ (r : Redis) where
  expire-ne :
      (j key : String) (s : r.Store)
      → (key == j) ≡ false
      → r.find j (r.expire key 3600 s) ≡ r.find j s
  expire-ne j key s ne = r.find-expire j key 3600 s ∙ rw ne refl

  pub cache_fields-ne :
      (j key : String) (fs : List (String × String)) (s : r.Store)
      → (key == j) ≡ false
      → r.find j (cache_fields r key fs s) ≡ r.find j s
  unfolding cache_fields
  cache_fields-ne j key [] s ne = expire-ne j key s ne
  cache_fields-ne j key (f ∷ fs) s ne = expire-ne j key _ ne ∙ r.find-hset_ne j key (f ∷ fs) s ne

  pub cache_fields_self :
      (key : String) (fs : List (String × String)) (s : r.Store)
      → is_cons fs ≡ true
      → r.find key s ≡ none
      → r.find key (cache_fields r key fs s) ≡ entry (object (with_fields fs [])) (some 3600)
  unfolding cache_fields
  cache_fields_self key [] s given fresh = absurd (cc given)
  cache_fields_self key (f ∷ fs) s given fresh =
      let stored = r.find-hset_self key (f ∷ fs) s [] (ap fields_of fresh) in
      r.find-expire key key 3600 _ ∙ rw (eq_refl key, stored) refl

  pub cache_modules-ne :
      (j key : String) (ms : List String) (s : r.Store)
      → (key == j) ≡ false
      → r.find j (cache_modules r key ms s) ≡ r.find j s
  unfolding cache_modules
  cache_modules-ne j key [] s ne = expire-ne j key s ne
  cache_modules-ne j key (m ∷ ms) s ne = expire-ne j key _ ne ∙ sadd_all-ne r j key (m ∷ ms) s ne

  pub cache_modules_self :
      (key : String) (ms : List String) (s : r.Store)
      → is_cons ms ≡ true
      → r.find key s ≡ none
      → (ms' : List String) × (r.find key (cache_modules r key ms s)
          ≡ entry (members ms') (some 3600))
        × SameHosts ms' ms
  unfolding cache_modules
  cache_modules_self key [] s given fresh = absurd (cc given)
  cache_modules_self key (m ∷ ms) s given fresh =
      let (ms', stored, same) = sadd_all-members r key m ms s fresh in
      (ms', r.find-expire key key 3600 _ ∙ rw (eq_refl key, stored) refl, same)

  pub cache_org_id-ne :
      (j key : String) (org_id : Option String) (s : r.Store)
      → (key == j) ≡ false
      → r.find j (cache_org_id r key org_id s) ≡ r.find j s
  unfolding cache_org_id
  cache_org_id-ne j key org_id s ne = elim (Bool-cases (is_filled_text org_id)) [
    | inl filled ↦
        rw (cache_org_id, filled)
          (expire-ne j key _ ne ∙ r.find-put j key (or_blank org_id) s ∙ rw ne refl)
    | inr blank ↦ rw (cache_org_id, blank) (expire-ne j key s ne)
  ]

  pub cache_org_id_self :
      (key : String) (org_id : Option String) (s : r.Store)
      → r.find key s ≡ none
      → text_at (r.find key (cache_org_id r key org_id s))
        ≡ (if is_filled_text org_id then org_id else none)
  unfolding cache_org_id
  cache_org_id_self key none s fresh =
      ap text_at (r.find-expire key key 3600 s) ∙ rw (eq_refl key, fresh) refl
  cache_org_id_self key (some t) s fresh = elim (Bool-cases (t == "")) [
    | inl blank ↦
        rw (cache_org_id, blank)
          (ap text_at (r.find-expire key key 3600 s) ∙ rw (eq_refl key, fresh) refl)
    | inr filled ↦
        rw (cache_org_id, filled)
          (ap text_at (r.find-expire key key 3600 _)
            ∙ rw (eq_refl key, r.find-put key key t s) (rw (eq_refl key) refl))
  ]
