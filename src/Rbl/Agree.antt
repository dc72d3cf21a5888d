-- ===== src/Rbl/Agree.antt =====
-- The status of internal/rbl/status.go and the file of healthy addresses of internal/rbl/store.go.
use mxsentinel.Rbl.Status.{has_rows}
use mxsentinel.Prelude.{
  ◌≡◌, refl, sym, ap, ◌∙◌, inl, inr, Bool, true, false, not, ◌&&◌, ◌||◌, List, [], ◌∷◌, arith,
  Bool-cases, select, any, All, select-All,
}
use mxsentinel.Prelude.Text.{Bytes, bytes_eq, bytes_eq→eq, bytes_eq_refl}
use mxsentinel.Prelude.Sort.{sort, place, bytes_le}
use mathlib.Core.Path.{subst}
use mxsentinel.Rbl.Status.{Row, ips_of, healthy_ips, ip_status}

||-swap : (a b c : Bool) → a || (b || c) ≡ b || (a || c)
||-swap true true c = refl
||-swap true false c = refl
||-swap false b c = refl

module _ (p : Bytes → Bool) where
  any-place : (x : Bytes) (xs : List Bytes) → any p (place bytes_le x xs) ≡ p x || any p xs
  unfolding any place
  any-place x [] = refl
  any-place x (y ∷ ys) = elim (Bool-cases (bytes_le x y)) [
    | inl e ↦ rw e refl
    | inr e ↦ rw e (ap (λ b. p y || b) (any-place x ys) ∙ ||-swap (p y) (p x) (any p ys))
  ]

  any-sort : (xs : List Bytes) → any p (sort bytes_le xs) ≡ any p xs
  unfolding any sort
  any-sort [] = refl
  any-sort (x ∷ xs) = any-place x (sort bytes_le xs) ∙ ap (λ b. p x || b) (any-sort xs)

bytes_eq-swap : (s t : Bytes) → bytes_eq s t ≡ bytes_eq t s
bytes_eq-swap s t = elim (Bool-cases (bytes_eq s t)) [
  | inl e ↦
      ap (λ u. bytes_eq s u) (sym (bytes_eq→eq s t e))
      ∙ bytes_eq_refl s
      ∙ sym (ap (λ u. bytes_eq u s) (sym (bytes_eq→eq s t e)) ∙ bytes_eq_refl s)
  | inr e ↦ ground (arith, bytes_eq→eq t s, bytes_eq_refl s)
]

-- The keys are those of the rows.
any-ips_of :
    (ip : Bytes) (rows : List Row)
    → any (bytes_eq ip) (ips_of rows) ≡ any (λ r. bytes_eq r.ip ip) rows
unfolding any ips_of
any-ips_of ip [] = refl
any-ips_of ip (r ∷ rs) = elim (Bool-cases (any (bytes_eq r.ip) (ips_of rs))) [
  | inl e ↦ rw e (
      any-ips_of ip rs ∙ (elim (Bool-cases (bytes_eq r.ip ip)) [
        | inl q ↦ rw q (
            sym (any-ips_of ip rs)
            ∙ subst (λ i. any (bytes_eq i) (ips_of rs) ≡ true) (bytes_eq→eq r.ip ip q) e)
        | inr q ↦ rw q refl
      ]))
  | inr e ↦ rw e (
      ap (λ b. b || any (bytes_eq ip) (ips_of rs)) (bytes_eq-swap ip r.ip)
      ∙ ap (λ b. bytes_eq r.ip ip || b) (any-ips_of ip rs))
]

-- A test that depends on the address alone.
any-select_ip :
    (f : Bytes → Bool) (ip : Bytes) (xs : List Bytes)
    → any (bytes_eq ip) (select f xs) ≡ f ip && any (bytes_eq ip) xs
unfolding any select
any-select_ip f ip [] = ground arith
any-select_ip f ip (x ∷ xs) = elim (Bool-cases (bytes_eq ip x)) [
  | inl e ↦
      subst (λ y. any (bytes_eq ip) (select f (y ∷ xs)) ≡ f ip && any (bytes_eq ip) (y ∷ xs))
        (bytes_eq→eq ip x e) (ground (arith, bytes_eq_refl ip, any-select_ip f ip xs))
  | inr e ↦ ground (arith, any-select_ip f ip xs)
]

-- Of the rows of the configured addresses, those of one of them are all its rows.
any-configured :
    (configured : List Bytes) (ip : Bytes) (q : Row → Bool) (rows : List Row)
    → any (bytes_eq ip) configured ≡ true
    → any (λ r. bytes_eq r.ip ip) (select q (select (λ r. any (bytes_eq r.ip) configured) rows))
      ≡ any q (select (λ r. bytes_eq r.ip ip) rows)
unfolding any select
any-configured configured ip q [] h = refl
any-configured configured ip q (r ∷ rs) h = elim (Bool-cases (bytes_eq r.ip ip)) [
  | inl e ↦
      let c = subst (λ i. any (bytes_eq i) configured ≡ true) (sym (bytes_eq→eq r.ip ip e)) h in
      rw (e, c)
        (elim (Bool-cases (q r)) [
          | inl f ↦ rw (f, e) refl
          | inr f ↦ rw f (any-configured configured ip q rs h)
        ])
  | inr e ↦ elim (Bool-cases (any (bytes_eq r.ip) configured)) [
    | inl c ↦
        rw (e, c)
          (elim (Bool-cases (q r)) [
            | inl f ↦ rw (f, e) (any-configured configured ip q rs h)
            | inr f ↦ rw f (any-configured configured ip q rs h)
          ])
    | inr c ↦ rw (e, c) (any-configured configured ip q rs h)
  ]
]

every_row : (rows : List Row) → All (λ r. true ≡ true) rows
every_row [] = tt
every_row (r ∷ rs) = (refl, every_row rs)

any-has_rows : (rows : List Row) → any (λ r. true) rows ≡ has_rows rows
unfolding any
any-has_rows [] = refl
any-has_rows (r ∷ rs) = refl

-- A configured address is among the healthy ones that are written for the mail server exactly when
-- the status that is shown calls it healthy: it has a result, and none that lists it.
pub healthy_ips-ip_status :
    (configured : List Bytes) (rows : List Row) (ip : Bytes)
    → any (bytes_eq ip) configured ≡ true
    → any (bytes_eq ip) (healthy_ips configured rows) ≡ (ip_status rows ip).healthy
unfolding healthy_ips ip_status
healthy_ips-ip_status configured rows ip h =
    let own = select (λ r. any (bytes_eq r.ip) configured) rows in
    let mine = select (λ r. bytes_eq r.ip ip) rows in
    let listed = ips_of (select (λ r. r.listed) own) in
    let f = λ (i : Bytes). not (any (bytes_eq i) listed) in
    let is_listed =
      any-ips_of ip (select (λ r. r.listed) own)
      ∙ any-configured configured ip (λ r. r.listed) rows h in
    let is_checked =
      any-ips_of ip own
      ∙ ap (λ l. any (λ r. bytes_eq r.ip ip) l) (sym (select-All (λ r. true) own (every_row own)))
      ∙ any-configured configured ip (λ r. true) rows h
      ∙ any-has_rows mine in
    any-sort (bytes_eq ip) (select f (ips_of own))
    ∙ any-select_ip f ip (ips_of own)
    ∙ ap (λ b. not b && any (bytes_eq ip) (ips_of own)) is_listed
    ∙ ap (λ b. not (any (λ r. r.listed) mine) && b) is_checked
    ∙ &&-swap (not (any (λ r. r.listed) mine)) (has_rows mine)
  where
    &&-swap : (a b : Bool) → a && b ≡ b && a
    &&-swap true true = refl
    &&-swap true false = refl
    &&-swap false true = refl
    &&-swap false false = refl
