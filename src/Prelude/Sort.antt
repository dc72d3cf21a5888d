-- ===== src/Prelude/Sort.antt =====
-- Go's `sort` package over a total preorder, as insertion sort, and the byte-wise order of strings.
use Prim.Native.Nat.{suc}
use mathlib.Core.Path.{◌≡◌, refl, ap, ap₂, subst, ◌∙◌}
use mathlib.Core.Logic.{◌⊎◌, inl, inr}
use mathlib.Core.Bool.{Bool, true, false, ◌&&◌, ◌||◌}
use mathlib.Core.List.{List, [], ◌∷◌, Permᴰ, reverse, reverse_aux}
use mathlib.Core.List.Permᴰ as PermD
use native.Mathlib.Omega.{arith}
use mxsentinel.Prelude.Tests.{if◌then◌else◌, Bool-cases, ◌==◌, ltb}
use mxsentinel.Prelude.Lists.{All, length, select}
use mxsentinel.Prelude.Text.{Bytes}

-- `a <= b` on strings.
unfoldable pub bytes_le : Bytes → Bytes → Bool
bytes_le [] t = true
bytes_le (c ∷ s) [] = false
bytes_le (c ∷ s) (d ∷ t) = ltb c d || (c == d && bytes_le s t)

pub bytes_le_total : (s t : Bytes) → (bytes_le s t ≡ true) ⊎ (bytes_le t s ≡ true)
unfolding bytes_le
bytes_le_total [] t = inl refl
bytes_le_total (c ∷ s) [] = inr refl
bytes_le_total (c ∷ s) (d ∷ t) = ground (arith, bytes_le_total s t)

pub bytes_le_trans :
    (s t u : Bytes) → bytes_le s t ≡ true → bytes_le t u ≡ true → bytes_le s u ≡ true
unfolding bytes_le
bytes_le_trans [] t u h k = refl
bytes_le_trans (c ∷ s) [] u h k = cc
bytes_le_trans (c ∷ s) (d ∷ t) [] h k = cc
bytes_le_trans (c ∷ s) (d ∷ t) (b ∷ u) h k = ground (arith, bytes_le_trans s t u)

pub bytes_le_antisym : (s t : Bytes) → bytes_le s t ≡ true → bytes_le t s ≡ true → s ≡ t
unfolding bytes_le
bytes_le_antisym [] [] h k = refl
bytes_le_antisym [] (d ∷ t) h k = cc
bytes_le_antisym (c ∷ s) [] h k = cc
bytes_le_antisym (c ∷ s) (d ∷ t) h k = ground (arith, bytes_le_antisym s t)

module _ {A : Type 0} (le : A → A → Bool) where
  unfoldable pub place : A → List A → List A
  place a [] = a ∷ []
  place a (y ∷ ys) = let rest = place a ys in if le a y then a ∷ y ∷ ys else y ∷ rest

  unfoldable pub sort : List A → List A
  unfolding place
  sort [] = []
  sort (x ∷ xs) = place x (sort xs)

  -- Each element is at most the one behind it.
  abbrev pub IsSorted : List A → Type 0
  IsSorted [] = Unit
  IsSorted (x ∷ xs) = All (λ y. le x y ≡ true) xs × IsSorted xs

pub place-perm :
    {A : Type 0} (le : A → A → Bool) (a : A) (xs : List A) → Permᴰ (a ∷ xs) (place le a xs)
unfolding place
place-perm le a [] = PermD.refl _
place-perm le a (y ∷ ys) = elim (Bool-cases (le a y)) [
  | inl e ↦ rw e (PermD.refl _)
  | inr e ↦ rw e (Permᴰ.trans (Permᴰ.swap refl refl) (Permᴰ.cons refl (place-perm le a ys)))
]

-- A sorted list in reverse is sorted the other way.
pub reverse-IsSorted :
    {A : Type 0} (le : A → A → Bool) (xs : List A)
    → IsSorted le xs
    → IsSorted (λ a b. le b a) (reverse xs)
reverse-IsSorted {A} le xs s = onto xs [] s tt (All-below xs)
  where
    Below : List A → A → Type 0
    Below ys x = All (λ y. le y x ≡ true) ys

    All-below : (xs : List A) → All (Below []) xs
    All-below [] = tt
    All-below (x ∷ xs) = (tt, All-below xs)

    All-below_cons :
        (x : A) (ys zs : List A)
        → All (λ z. le x z ≡ true) zs
        → All (Below ys) zs
        → All (Below (x ∷ ys)) zs
    All-below_cons x ys [] h k = tt
    All-below_cons x ys (z ∷ zs) h k = ((h.0, k.0), All-below_cons x ys zs h.1 k.1)

    onto :
        (xs acc : List A)
        → IsSorted le xs
        → IsSorted (λ a b. le b a) acc
        → All (Below acc) xs
        → IsSorted (λ a b. le b a) (reverse_aux xs acc)
    onto [] acc s t h = t
    onto (x ∷ xs) acc s t h = onto xs (x ∷ acc) s.1 (h.0, t) (All-below_cons x acc xs s.0 h.1)

module _ {A : Type 0} (le : A → A → Bool) (total : (a b : A) → (le a b ≡ true) ⊎ (le b a ≡ true))
    (trans : (a b c : A) → le a b ≡ true → le b c ≡ true → le a c ≡ true) where
  All-le_trans :
      (a y : A) (xs : List A)
      → le a y ≡ true
      → All (λ z. le y z ≡ true) xs
      → All (λ z. le a z ≡ true) xs
  All-le_trans a y [] h k = tt
  All-le_trans a y (x ∷ xs) h k = (trans a y x h k.0, All-le_trans a y xs h k.1)

  All-place : (P : A → Type 0) (a : A) (xs : List A) → P a → All P xs → All P (place le a xs)
  unfolding place
  All-place P a [] h k = (h, tt)
  All-place P a (y ∷ ys) h k = elim (Bool-cases (le a y)) [
    | inl e ↦ rw e (h, k)
    | inr e ↦ rw e (k.0, All-place P a ys h k.1)
  ]

  pub place-IsSorted : (a : A) (xs : List A) → IsSorted le xs → IsSorted le (place le a xs)
  unfolding place
  place-IsSorted a [] s = (tt, tt)
  place-IsSorted a (y ∷ ys) s = elim (Bool-cases (le a y)) [
    | inl e ↦ rw e ((e, All-le_trans a y ys e s.0), s)
    | inr e ↦ rw e (
      All-place (λ z. le y z ≡ true) a ys (ground (arith, total a y)) s.0,
      place-IsSorted a ys s.1,
    )
  ]

  pub sort-IsSorted : (xs : List A) → IsSorted le (sort le xs)
  unfolding sort
  sort-IsSorted [] = tt
  sort-IsSorted (x ∷ xs) = place-IsSorted x (sort le xs) (sort-IsSorted xs)

  pub All-sort : (P : A → Type 0) (xs : List A) → All P xs → All P (sort le xs)
  unfolding sort
  All-sort P [] h = tt
  All-sort P (x ∷ xs) h = All-place P x (sort le xs) h.0 (All-sort P xs h.1)

  pub length-sort : (xs : List A) → length (sort le xs) ≡ length xs
  unfolding sort
  length-sort [] = refl
  length-sort (x ∷ xs) = length-place x (sort le xs) ∙ ap suc (length-sort xs)
    where
      length-place : (a : A) (ys : List A) → length (place le a ys) ≡ suc (length ys)
      length-place a [] = refl
      length-place a (y ∷ ys) = ground (arith, length-place a ys)

  -- Where equal rank means equality, the sorted list does not depend on the order of the input.
  module _ (P : A → Type 0)
      (antisym : (a b : A) → P a → P b → le a b ≡ true → le b a ≡ true → a ≡ b) where
    place_comm :
        (a b : A)
        → P a
        → P b
        → (xs : List A) → place le a (place le b xs) ≡ place le b (place le a xs)
    unfolding place
    place_comm a b pa pb [] = ground (arith, total a b, antisym a b)
    place_comm a b pa pb (y ∷ ys) =
        ground (arith, total a b, antisym a b, trans a b y, trans b a y, place_comm a b pa pb ys)

    All-perm : {xs ys : List A} → Permᴰ xs ys → All P xs → All P ys
    All-perm Permᴰ.nil h = h
    All-perm (Permᴰ.cons e p) h = (subst P e h.0, All-perm p h.1)
    All-perm (Permᴰ.swap e f) h = (subst P f h.1.0, (subst P e h.0, h.1.1))
    All-perm (Permᴰ.trans p q) h = All-perm q (All-perm p h)

    pub sort-perm_eq : {xs ys : List A} → Permᴰ xs ys → All P xs → sort le xs ≡ sort le ys
    unfolding sort
    sort-perm_eq Permᴰ.nil h = refl
    sort-perm_eq (Permᴰ.cons {b = b} e p) h = ap₂ (place le) e (sort-perm_eq p h.1)
    sort-perm_eq (Permᴰ.swap {a = a} {b = b} {l = l} e f) h =
        place_comm a b h.0 h.1.0 (sort le l) ∙ ap₂ (place le) f (ap (λ c. place le c (sort le l)) e)
    sort-perm_eq (Permᴰ.trans p q) h = sort-perm_eq p h ∙ sort-perm_eq q (All-perm p h)

pub Permᴰ-select {ℓ} :
    {A : Type ℓ} (p : A → Bool) {xs ys : List A} → Permᴰ xs ys → Permᴰ (select p xs) (select p ys)
unfolding select
Permᴰ-select p Permᴰ.nil = Permᴰ.nil
Permᴰ-select p (Permᴰ.cons {b = b} e d) = elim (Bool-cases (p b)) [
  | inl t ↦ rw (e, t) (Permᴰ.cons refl (Permᴰ-select p d))
  | inr t ↦ rw (e, t) (Permᴰ-select p d)
]
Permᴰ-select p (Permᴰ.swap {a' = a'} {b' = b'} {l = l} e f) =
    rw (e, f)
      (elim (Bool-cases (p a')) [
        | inl t ↦ elim (Bool-cases (p b')) [
          | inl u ↦ rw (t, u) (Permᴰ.swap refl refl)
          | inr u ↦ rw (t, u) (PermD.refl _)
        ]
        | inr t ↦ elim (Bool-cases (p b')) [
          | inl u ↦ rw (t, u) (PermD.refl _)
          | inr u ↦ rw (t, u) (PermD.refl _)
        ]
      ])
Permᴰ-select p (Permᴰ.trans d d') = Permᴰ.trans (Permᴰ-select p d) (Permᴰ-select p d')
