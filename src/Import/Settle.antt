-- ===== src/Import/Settle.antt =====
-- Promise.allSettled over one transaction per row: each commits or leaves the database as it was.
use lodestar_server.Prelude.{
  ◌+◌, ◌≡◌, refl, Bool, true, false, not, List, [], ◌∷◌, length, select, arith,
}

-- What a transaction comes to: the database after it, or the reason of its rejection.
pub data Settled {ℓ} (E : Type ℓ) : Type ℓ where
  fulfilled : Settled E
  rejected : E → Settled E

abbrev pub is_fulfilled {ℓ} : {E : Type ℓ} → Settled E → Bool
is_fulfilled fulfilled = true
is_fulfilled (rejected e) = false

abbrev pub reasons {ℓ} : {E : Type ℓ} → List (Settled E) → List E
reasons [] = []
reasons (fulfilled ∷ rs) = reasons rs
reasons (rejected e ∷ rs) = e ∷ reasons rs

pub data Outcome (S E : Type 0) : Type 0 where
  committed : S → Outcome S E
  rolled_back : E → Outcome S E

module _ {S E : Type 0} where
  abbrev settled_of : Outcome S E → Settled E
  settled_of (committed s) = fulfilled
  settled_of (rolled_back e) = rejected e

  abbrev state_of : S → Outcome S E → S
  state_of s (committed t) = t
  state_of s (rolled_back e) = s

module _ {A S E : Type 0} where
  -- The transactions in the order of the rows.
  abbrev pub settle_all : (A → S → Outcome S E) → List A → S → List (Settled E) × S
  settle_all transaction [] s = ([], s)
  settle_all transaction (a ∷ rows) s =
      let outcome = transaction a s in
      let rest = settle_all transaction rows (state_of s outcome) in
      (settled_of outcome ∷ rest.0, rest.1)

  pub length-settle_all :
      (transaction : A → S → Outcome S E) (rows : List A) (s : S)
      → length (settle_all transaction rows s).0 ≡ length rows
  length-settle_all transaction [] s = refl
  length-settle_all transaction (a ∷ rows) s =
      omega (arith, length-settle_all transaction rows (state_of s (transaction a s)))

-- Every transaction is fulfilled or gives a reason.
pub length-reasons {ℓ} :
    {E : Type ℓ} (rs : List (Settled E))
    → length (select is_fulfilled rs) + length (reasons rs) ≡ length rs
length-reasons [] = omega arith
length-reasons (fulfilled ∷ rs) = omega (arith, length-reasons rs)
length-reasons (rejected e ∷ rs) = omega (arith, length-reasons rs)

-- A test parts a list in two.
pub length-select-not {ℓ} :
    {A : Type ℓ} (p : A → Bool) (xs : List A)
    → length (select p xs) + length (select (λ x. not (p x)) xs) ≡ length xs
length-select-not p [] = omega arith
length-select-not p (x ∷ xs) = ground (arith, length-select-not p xs)
