-- ===== src/Prelude/Assoc.antt =====
-- Go's maps as association lists: one entry for each key, in the order in which a `range` visits
-- them. A statement over all such lists covers every iteration order.
use Prim.Native.Nat.{ℕ}
use Prim.Native.String.{String}
use mathlib.Core.Path.{◌≡◌, refl}
use mathlib.Core.Bool.{Bool, true, false}
use mathlib.Core.Option.{Option, none, some}
use mathlib.Core.List.{List, [], ◌∷◌}
use native.Mathlib.Omega.{arith}
use text.Mathlib.Text.{◌==◌ as str_eq}
use text.Mathlib.TextEquality.{eq_iff}
use mathlib.Core.Path.{subst}
use mxsentinel.Prelude.Text.{Bytes, bytes_eq, bytes_eq→eq, bytes_eq_refl}
use mathlib.Core.Logic.{inl, inr}
use mxsentinel.Prelude.Tests.{Bool-cases, if◌then◌else◌, ◌==◌, ==→eq, ==_refl}

-- Keys with a decidable equality.
pub record Key {ℓ} (K : Type ℓ) : Type ℓ where
  pub beq : K → K → Bool
  pub beq→eq : (a b : K) → beq a b ≡ true → a ≡ b
  pub beq_refl : (a : K) → beq a a ≡ true

instance abbrev pub string_key : Key String
string_key = record {
  beq = str_eq;
  beq→eq = λ a b. (eq_iff a b).0;
  beq_refl = λ a. (eq_iff a a).1 refl;
}

instance abbrev pub nat_key : Key ℕ
nat_key = record { beq = ◌==◌; beq→eq = ==→eq; beq_refl = ==_refl }

instance abbrev pub bytes_key : Key Bytes
bytes_key = record { beq = bytes_eq; beq→eq = bytes_eq→eq; beq_refl = bytes_eq_refl }

pub beq_sym {ℓ} : {K : Type ℓ} ⦃e : Key K⦄ (a b : K) → e.beq a b ≡ false → e.beq b a ≡ false
beq_sym ⦃e⦄ a b h = ground (arith, e.beq→eq b a, e.beq_refl a)

module _ {ℓ κ} {K : Type ℓ} {V : Type κ} ⦃e : Key K⦄ where
  unfoldable pub lookup : K → List (K × V) → Option V
  lookup k [] = none
  lookup k ((j, v) ∷ m) = if e.beq j k then some v else lookup k m

  -- `m[k] = v`
  unfoldable pub insert : K → V → List (K × V) → List (K × V)
  insert k v [] = (k, v) ∷ []
  insert k v ((j, w) ∷ m) = if e.beq j k then (k, v) ∷ m else (j, w) ∷ insert k v m

  pub lookup-insert_self : (k : K) (v : V) (m : List (K × V)) → lookup k (insert k v m) ≡ some v
  unfolding lookup insert
  lookup-insert_self k v [] = ground (arith, e.beq_refl k)
  lookup-insert_self k v ((j, w) ∷ m) = ground (arith, e.beq_refl k, lookup-insert_self k v m)

  pub lookup-insert_ne :
      (k j : K) (v : V) (m : List (K × V))
      → e.beq k j ≡ false
      → lookup j (insert k v m) ≡ lookup j m
  unfolding lookup insert
  lookup-insert_ne k j v [] h = ground arith
  lookup-insert_ne k j v ((i, w) ∷ m) h = ground (arith, e.beq→eq i k, lookup-insert_ne k j v m h)

  -- `delete(m, k)`
  unfoldable pub erase : K → List (K × V) → List (K × V)
  erase k [] = []
  erase k ((j, v) ∷ m) = let rest = erase k m in if e.beq j k then rest else (j, v) ∷ rest

  pub lookup-erase_self : (k : K) (m : List (K × V)) → lookup k (erase k m) ≡ none
  unfolding lookup erase
  lookup-erase_self k [] = refl
  lookup-erase_self k ((j, w) ∷ m) = ground (arith, lookup-erase_self k m)

  pub lookup-erase_ne :
      (k j : K) (m : List (K × V)) → e.beq k j ≡ false → lookup j (erase k m) ≡ lookup j m
  unfolding lookup erase
  lookup-erase_ne k j [] h = refl
  lookup-erase_ne k j ((i, w) ∷ m) h = ground (arith, e.beq→eq i k, lookup-erase_ne k j m h)

  -- The keys are all different.
  abbrev pub IsFresh : K → List (K × V) → Type 0
  IsFresh k [] = Unit
  IsFresh k ((j, v) ∷ m) = (e.beq j k ≡ false) × IsFresh k m

  abbrev pub IsMap : List (K × V) → Type 0
  IsMap [] = Unit
  IsMap ((j, v) ∷ m) = IsFresh j m × IsMap m

  IsFresh-insert :
      (k j : K) (v : V) (m : List (K × V))
      → e.beq k j ≡ false
      → IsFresh j m
      → IsFresh j (insert k v m)
  unfolding insert
  IsFresh-insert k j v [] h f = (h, tt)
  IsFresh-insert k j v ((i, w) ∷ m) h f = ground (arith, IsFresh-insert k j v m h f.1, e.beq→eq i k)

  pub IsMap-insert : (k : K) (v : V) (m : List (K × V)) → IsMap m → IsMap (insert k v m)
  unfolding insert
  IsMap-insert k v [] h = (tt, tt)
  IsMap-insert k v ((i, w) ∷ m) h = elim (Bool-cases (e.beq i k)) [
    | inl q ↦ rw q (subst (λ j. IsFresh j m) (e.beq→eq i k q) h.0, h.1)
    | inr q ↦ rw q (IsFresh-insert k i v m (beq_sym i k q) h.0, IsMap-insert k v m h.1)
  ]

  -- A `range` over the map that deletes the entries which fail a test.
  unfoldable pub retain : (K → V → Bool) → List (K × V) → List (K × V)
  retain p [] = []
  retain p ((j, v) ∷ m) = let rest = retain p m in if p j v then (j, v) ∷ rest else rest

  IsFresh-retain :
      (p : K → V → Bool) (k : K) (m : List (K × V)) → IsFresh k m → IsFresh k (retain p m)
  unfolding retain
  IsFresh-retain p k [] h = tt
  IsFresh-retain p k ((j, v) ∷ m) h = elim (Bool-cases (p j v)) [
    | inl q ↦ rw q (h.0, IsFresh-retain p k m h.1)
    | inr q ↦ rw q (IsFresh-retain p k m h.1)
  ]

  pub IsMap-retain : (p : K → V → Bool) (m : List (K × V)) → IsMap m → IsMap (retain p m)
  unfolding retain
  IsMap-retain p [] h = tt
  IsMap-retain p ((j, v) ∷ m) h = elim (Bool-cases (p j v)) [
    | inl q ↦ rw q (IsFresh-retain p j m h.0, IsMap-retain p m h.1)
    | inr q ↦ rw q (IsMap-retain p m h.1)
  ]

  lookup_fresh : (k : K) (m : List (K × V)) → IsFresh k m → lookup k m ≡ none
  unfolding lookup
  lookup_fresh k [] h = refl
  lookup_fresh k ((j, v) ∷ m) h = rw h.0 (lookup_fresh k m h.1)

  -- An entry that passes the test stays.
  pub lookup-retain_keep :
      (p : K → V → Bool) (k : K) (v : V) (m : List (K × V))
      → lookup k m ≡ some v
      → p k v ≡ true
      → lookup k (retain p m) ≡ some v
  unfolding lookup retain
  lookup-retain_keep p k v [] h q = cc
  lookup-retain_keep p k v ((j, w) ∷ m) h q =
      ground (arith, e.beq→eq j k, lookup-retain_keep p k v m)

  -- Of a map, what is found after the deletions was there and passed the test.
  pub lookup-retain :
      (p : K → V → Bool) (k : K) (v : V) (m : List (K × V))
      → IsMap m
      → lookup k (retain p m) ≡ some v
      → (lookup k m ≡ some v) × (p k v ≡ true)
  unfolding lookup retain
  lookup-retain p k v [] h q = absurd (cc)
  lookup-retain p k v ((j, w) ∷ m) h q = elim (Bool-cases (e.beq j k)) [
    | inl s ↦ elim (Bool-cases (p j w)) [
      | inl t ↦ ground (arith, e.beq→eq j k)
      | inr t ↦
          let fresh = subst (λ i. IsFresh i m) (e.beq→eq j k s) h.0 in
          absurd (ground (arith, lookup_fresh k (retain p m) (IsFresh-retain p k m fresh)))
    ]
    | inr s ↦ elim (Bool-cases (p j w)) [
      | inl t ↦ ground (arith, lookup-retain p k v m h.1)
      | inr t ↦ ground (arith, lookup-retain p k v m h.1)
    ]
  ]
