-- ===== src/RateLimit/Window.antt =====
-- The limiter over the in-memory counter, over sequences of requests.
use Prim.Native.Nat.{min}
use mathlib.Core.Path.{subst}
use mxsentinel.Prelude.{
  ℕ, ◌+◌, ◌-◌, ◌≤◌, ◌<◌, ◌≡◌, refl, sym, ap, ◌∙◌, inl, inr, false, ◌&&◌, Option, none, some, List,
  [], ◌∷◌, ◌++◌, arith, leb, if◌then◌else◌, Bool-cases, All,
}
use mxsentinel.Prelude.Text.{Bytes, codes, bytes_eq, bytes_eq→eq, bytes_eq_refl}
use mxsentinel.Prelude.Assoc.{lookup, bytes_key, lookup-insert_self, lookup-insert_ne}
use mxsentinel.RateLimit.Limiter.{Limiter, allow, MemEntry, MemCounter, current, bump, mem_counter}

pub record Request : Type 0 where
  pub key : Bytes
  pub now : ℕ

-- How many requests for the key are allowed, as the requests are served in turn.
unfoldable pub granted : Limiter → Bytes → MemCounter → List Request → ℕ
granted l k m [] = 0
granted l k m (r ∷ rs) =
    let (v, m') = allow mem_counter l m r.key r.now in
    (if bytes_eq r.key k && v.allowed then 1 else 0) + granted l k m' rs

unfoldable pub requests : Bytes → List Request → ℕ
requests k [] = 0
requests k (r ∷ rs) = (if bytes_eq r.key k then 1 else 0) + requests k rs

beq_stored : (j k : Bytes) → bytes_eq (codes "rl:" ++ j) (codes "rl:" ++ k) ≡ bytes_eq j k
unfolding bytes_eq
beq_stored j k = refl

-- The entry of the key after a request of its own within the window.
own_request :
    (l : Limiter) (k : Bytes) (m : MemCounter) (now c x : ℕ)
    → lookup (codes "rl:" ++ k) m ≡ some (record { count = c; exp = x })
    → now ≤ x
    → ((allow mem_counter l m k now).0.allowed ≡ leb (c + 1) l.limit)
      × (lookup (codes "rl:" ++ k) (allow mem_counter l m k now).1
          ≡ some (record { count = c + 1; exp = x }))
unfolding allow mem_counter bump
own_request l k m now c x h t =
    let cur : current (lookup (codes "rl:" ++ k) m) l.window now ≡ record { count = c; exp = x } =
      unfold current in rw h (ground arith) in
    (
      ap (λ e. leb (bump e).count l.limit) cur,
      lookup-insert_self (codes "rl:" ++ k) _ m ∙ ap (λ e. some (bump e)) cur,
    )

own_at :
    (l : Limiter) (j k : Bytes) (m : MemCounter) (now c x : ℕ)
    → k ≡ j
    → lookup (codes "rl:" ++ k) m ≡ some (record { count = c; exp = x })
    → now ≤ x
    → ((allow mem_counter l m j now).0.allowed ≡ leb (c + 1) l.limit)
      × (lookup (codes "rl:" ++ k) (allow mem_counter l m j now).1
          ≡ some (record { count = c + 1; exp = x }))
own_at l j k m now c x e h t =
    subst
      (λ i.
        ((allow mem_counter l m i now).0.allowed ≡ leb (c + 1) l.limit)
        × (lookup (codes "rl:" ++ k) (allow mem_counter l m i now).1
            ≡ some (record { count = c + 1; exp = x })))
      e (own_request l k m now c x h t)

-- A request for another key leaves the entry alone.
other_request :
    (l : Limiter) (j k : Bytes) (m : MemCounter) (now : ℕ)
    → bytes_eq j k ≡ false
    → lookup (codes "rl:" ++ k) (allow mem_counter l m j now).1 ≡ lookup (codes "rl:" ++ k) m
unfolding allow mem_counter
other_request l j k m now h =
    lookup-insert_ne (codes "rl:" ++ j) (codes "rl:" ++ k) _ m (beq_stored j k ∙ h)

granted_within :
    (l : Limiter) (k : Bytes) (m : MemCounter) (rs : List Request) (c x : ℕ)
    → lookup (codes "rl:" ++ k) m ≡ some (record { count = c; exp = x })
    → All (λ r. r.now ≤ x) rs
    → granted l k m rs ≡ min (requests k rs) (l.limit - c)
unfolding granted requests
granted_within l k m [] c x h t = omega arith
granted_within l k m (r ∷ rs) c x h t = elim (Bool-cases (bytes_eq r.key k)) [
  | inl e ↦
      let (ok, kept) = own_at l r.key k m r.now c x (sym (bytes_eq→eq r.key k e)) h t.0 in
      rw (e, ok, granted_within l k (allow mem_counter l m r.key r.now).1 rs (c + 1) x kept t.1)
        (ground arith)
  | inr e ↦
      rw
        (
          e,
          granted_within l k (allow mem_counter l m r.key r.now).1 rs c x
              (other_request l r.key k m r.now e ∙ h) t.1,
        )
        (omega arith)
]

-- The first request of a window finds no live entry and opens one that counts itself.
opening_request :
    (l : Limiter) (k : Bytes) (m : MemCounter) (now : ℕ)
    → ((e : MemEntry) → lookup (codes "rl:" ++ k) m ≡ some e → e.exp < now)
    → ((allow mem_counter l m k now).0.allowed ≡ leb 1 l.limit)
      × (lookup (codes "rl:" ++ k) (allow mem_counter l m k now).1
          ≡ some (record { count = 1; exp = now + l.window }))
unfolding allow mem_counter current bump
opening_request l k m now h =
    let cur : current (lookup (codes "rl:" ++ k) m) l.window now
        ≡ record { count = 0; exp = now + l.window } =
      fresh (lookup (codes "rl:" ++ k) m) h in
    (
      ap (λ e. leb (bump e).count l.limit) cur,
      lookup-insert_self (codes "rl:" ++ k) _ m ∙ ap (λ e. some (bump e)) cur,
    )
  where
    fresh :
        (o : Option MemEntry)
        → ((e : MemEntry) → o ≡ some e → e.exp < now)
        → current o l.window now ≡ record { count = 0; exp = now + l.window }
    fresh none q = refl
    fresh (some e) q = ground (arith, q e refl)

-- In one window of a key, which opens with a request that finds no live entry for it and is followed
-- by requests for any keys up to the end of the window, the number of requests for that key that the
-- limiter allows is the lesser of their number and the limit, whatever the other keys do.
pub granted_window :
    (l : Limiter) (k : Bytes) (m : MemCounter) (now : ℕ) (rs : List Request)
    → ((e : MemEntry) → lookup (codes "rl:" ++ k) m ≡ some e → e.exp < now)
    → All (λ r. r.now ≤ now + l.window) rs
    → granted l k m (record { key = k; now = now } ∷ rs) ≡ min (1 + requests k rs) l.limit
unfolding granted
granted_window l k m now rs h t =
    let (ok, kept) = opening_request l k m now h in
    rw
      (
        bytes_eq_refl k,
        ok,
        granted_within l k (allow mem_counter l m k now).1 rs 1 (now + l.window) kept t,
      )
      (ground arith)
