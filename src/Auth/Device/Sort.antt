-- ===== src/Auth/Device/Sort.antt =====
-- Sorting devices by their last sign-in: the same devices, in order; and what signing out a first part leaves.
use native.Mathlib.Nat.{le_trans}
use lodestar_server.Prelude.{
  All-of, All-select_iff, ◌+◌, ◌≤◌, String, ◌≡◌, refl, ◌∙◌, Bool, true, false, not, List, [], ◌∷◌,
  ◌++◌, arith, eq_iff, eq_refl, ◌==◌, leb, length, select, any, All, All-append_right, All-map,
  All-zip, All-select, Bool-cases, inl, inr, select-append, select_none, select-All,
}
use lodestar_server.Auth.Device.{MemberDevice}
use lodestar_server.Auth.Device.Service.{insert_by_login, sort_by_login, ids_of}

-- The devices have different ids.
abbrev pub HasDistinctIds : List MemberDevice → Type 0
HasDistinctIds [] = Unit
HasDistinctIds (d ∷ ds) = All (λ e. (d.id == e.id) ≡ false) ds × HasDistinctIds ds

-- Each device signed in no later than those after it.
abbrev pub IsSorted : List MemberDevice → Type 0
IsSorted [] = Unit
IsSorted (d ∷ ds) = All (λ e. d.last_login_at ≤ e.last_login_at) ds × IsSorted ds

-- The devices that are not among the ids.
abbrev pub kept : List String → MemberDevice → Bool
kept ids d = not (any (λ i. i == d.id) ids)

length-select-insert :
    (p : MemberDevice → Bool) (d : MemberDevice) (ds : List MemberDevice)
    → length (select p (insert_by_login d ds)) ≡ length (select p (d ∷ ds))
unfolding insert_by_login
length-select-insert p d [] = refl
length-select-insert p d (e ∷ es) = ground (arith, length-select-insert p d es)

pub length-select-sort :
    (p : MemberDevice → Bool) (ds : List MemberDevice)
    → length (select p (sort_by_login ds)) ≡ length (select p ds)
unfolding sort_by_login
length-select-sort p [] = refl
length-select-sort p (d ∷ ds) =
    length-select-insert p d (sort_by_login ds) ∙ ground (arith, length-select-sort p ds)

length-insert :
    (d : MemberDevice) (ds : List MemberDevice) → length (insert_by_login d ds) ≡ length ds + 1
unfolding insert_by_login
length-insert d [] = omega arith
length-insert d (e ∷ es) = ground (arith, length-insert d es)

pub length-sort : (ds : List MemberDevice) → length (sort_by_login ds) ≡ length ds
unfolding sort_by_login
length-sort [] = refl
length-sort (d ∷ ds) = omega (arith, length-insert d (sort_by_login ds), length-sort ds)

module _ (P : MemberDevice → Type 0) where
  All-insert :
      (d : MemberDevice) (ds : List MemberDevice) → P d → All P ds → All P (insert_by_login d ds)
  unfolding insert_by_login
  All-insert d [] p h = (p, tt)
  All-insert d (e ∷ es) p (q, h) = elim (Bool-cases (leb d.last_login_at e.last_login_at)) [
    | inl t ↦ rw t (p, (q, h))
    | inr f ↦ rw f (q, All-insert d es p h)
  ]

  pub All-sort : (ds : List MemberDevice) → All P ds → All P (sort_by_login ds)
  unfolding sort_by_login
  All-sort [] h = tt
  All-sort (d ∷ ds) (p, h) = All-insert d (sort_by_login ds) p (All-sort ds h)

  All-of_insert :
      (d : MemberDevice) (ds : List MemberDevice) → All P (insert_by_login d ds) → P d × All P ds
  unfolding insert_by_login
  All-of_insert d [] h = h
  All-of_insert d (e ∷ es) h = elim (Bool-cases (leb d.last_login_at e.last_login_at)) [
    | inl t ↦ rw t at h
    | inr f ↦
        let h' : P e × All P (insert_by_login d es) = rw f at h in
        let (p, q) = All-of_insert d es h'.1 in (p, (h'.0, q))
  ]

  All-of_sort : (ds : List MemberDevice) → All P (sort_by_login ds) → All P ds
  unfolding sort_by_login
  All-of_sort [] h = tt
  All-of_sort (d ∷ ds) h =
      let (p, q) = All-of_insert d (sort_by_login ds) h in (p, All-of_sort ds q)

pub All-select_of_sort :
    (P : MemberDevice → Type 0) (p : MemberDevice → Bool) (ds : List MemberDevice)
    → All P (select p (sort_by_login ds))
    → All P (select p ds)
All-select_of_sort P p ds h =
    (All-select_iff P p ds).1 (All-of_sort _ ds ((All-select_iff P p (sort_by_login ds)).0 h))

insert-IsSorted :
    (d : MemberDevice) (ds : List MemberDevice) → IsSorted ds → IsSorted (insert_by_login d ds)
unfolding insert_by_login
insert-IsSorted d [] s = (tt, tt)
insert-IsSorted d (e ∷ es) (h, s) = elim (Bool-cases (leb d.last_login_at e.last_login_at)) [
  | inl t ↦
      let first : d.last_login_at ≤ e.last_login_at = ground arith in
      rw t ((first, All-map es (λ x le. le_trans first le) h), (h, s))
  | inr f ↦ rw f (
    All-insert (λ x. e.last_login_at ≤ x.last_login_at) d es (ground arith) h,
    insert-IsSorted d es s,
  )
]

pub sort-IsSorted : (ds : List MemberDevice) → IsSorted (sort_by_login ds)
unfolding sort_by_login
sort-IsSorted [] = tt
sort-IsSorted (d ∷ ds) = insert-IsSorted d (sort_by_login ds) (sort-IsSorted ds)

insert-HasDistinctIds :
    (d : MemberDevice) (ds : List MemberDevice)
    → All (λ e. (d.id == e.id) ≡ false) ds
    → HasDistinctIds ds
    → HasDistinctIds (insert_by_login d ds)
unfolding insert_by_login
insert-HasDistinctIds d [] h u = (tt, tt)
insert-HasDistinctIds d (e ∷ es) (p, h) (k, u) =
    elim (Bool-cases (leb d.last_login_at e.last_login_at)) [
      | inl t ↦ rw t ((p, h), (k, u))
      | inr f ↦ rw f (
        All-insert (λ x. (e.id == x.id) ≡ false) d es
            (ground (arith, eq_iff d.id e.id, eq_iff e.id d.id)) k,
        insert-HasDistinctIds d es h u,
      )
    ]

pub sort-HasDistinctIds :
    (ds : List MemberDevice) → HasDistinctIds ds → HasDistinctIds (sort_by_login ds)
unfolding sort_by_login
sort-HasDistinctIds [] u = tt
sort-HasDistinctIds (d ∷ ds) (h, u) =
    insert-HasDistinctIds d (sort_by_login ds) (All-sort _ ds h) (sort-HasDistinctIds ds u)

pub select-HasDistinctIds :
    (p : MemberDevice → Bool) (ds : List MemberDevice)
    → HasDistinctIds ds
    → HasDistinctIds (select p ds)
select-HasDistinctIds p [] u = tt
select-HasDistinctIds p (d ∷ ds) (h, u) = elim (Bool-cases (p d)) [
  | inl t ↦ rw t (All-select _ p ds h, select-HasDistinctIds p ds u)
  | inr f ↦ rw f (select-HasDistinctIds p ds u)
]

-- Of a list with distinct ids, those not among the ids of its first part are the second part.
gone : (xs : List MemberDevice) → All (λ d. kept (ids_of xs) d ≡ false) xs
gone [] = tt
gone (x ∷ xs) = (rw (eq_refl x.id) refl, All-map xs (λ d e. ground (arith, e)) (gone xs))

rest_kept :
    (xs ys : List MemberDevice)
    → HasDistinctIds (xs ++ ys)
    → All (λ d. kept (ids_of xs) d ≡ true) ys
rest_kept [] ys u = All-of ys (λ d. refl)
rest_kept (x ∷ xs) ys (h, u) =
    All-zip ys (λ d p q. ground (arith, p, q)) (All-append_right _ xs ys h) (rest_kept xs ys u)

pub select-kept :
    (xs ys : List MemberDevice)
    → HasDistinctIds (xs ++ ys)
    → select (kept (ids_of xs)) (xs ++ ys) ≡ ys
select-kept xs ys u =
    select-append (kept (ids_of xs)) xs ys
    ∙ rw (select_none (kept (ids_of xs)) xs (gone xs))
        (select-All (kept (ids_of xs)) ys (rest_kept xs ys u))

-- In a sorted list the first part signed in no later than the second.
pub sorted_parts :
    (xs ys : List MemberDevice)
    → IsSorted (xs ++ ys)
    → All (λ d. All (λ e. d.last_login_at ≤ e.last_login_at) ys) xs
sorted_parts [] ys s = tt
sorted_parts (x ∷ xs) ys (h, s) = (All-append_right _ xs ys h, sorted_parts xs ys s)
