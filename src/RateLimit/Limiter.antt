-- ===== src/RateLimit/Limiter.antt =====
-- internal/ratelimit/ratelimit.go. The counter is an interface; the in-memory one implements it.
-- Times and windows are nanoseconds.
use mxsentinel.Prelude.{
  ℕ, ◌+◌, ◌≡◌, Bool, true, false, Option, none, some, List, ◌++◌, arith, ltb, leb, if◌then◌else◌,
}
use mxsentinel.Prelude.Text.{Bytes, codes}
use mxsentinel.Prelude.Assoc.{lookup, insert, bytes_key}

-- The interface `Counter`, with its state made explicit: `none` is an error.
pub record Counter (S : Type 0) : Type 0 where
  pub incr : S → Bytes → ℕ → ℕ → Option ℕ × S

pub record Limiter : Type 0 where
  pub limit : ℕ
  pub window : ℕ

-- What `Allow` returns: the error is a flag.
pub record Verdict : Type 0 where
  pub allowed : Bool
  pub count : ℕ
  pub failed : Bool

abbrev verdict_of : ℕ → Option ℕ → Verdict
verdict_of limit none = record { allowed = true; count = 0; failed = true }
verdict_of limit (some n) = record { allowed = leb n limit; count = n; failed = false }

-- The last argument is the time at which the counter is called.
unfoldable pub allow : {S : Type 0} → Counter S → Limiter → S → Bytes → ℕ → Verdict × S
allow c l s key now =
    let (n, s') = c.incr s (codes "rl:" ++ key) l.window now in (verdict_of l.limit n, s')

pub record MemEntry : Type 0 where
  pub count : ℕ
  pub exp : ℕ

abbrev pub MemCounter : Type 0
MemCounter = List (Bytes × MemEntry)

-- The entry that the increment starts from: a new one, if there is none or it has expired.
unfoldable pub current : Option MemEntry → ℕ → ℕ → MemEntry
current none window now = record { count = 0; exp = now + window }
current (some e) window now = if ltb e.exp now then record { count = 0; exp = now + window } else e

unfoldable pub bump : MemEntry → MemEntry
bump e = record e { count = e.count + 1 }

unfoldable pub mem_incr : MemCounter → Bytes → ℕ → ℕ → Option ℕ × MemCounter
unfolding current bump
mem_incr m key window now =
    let e = bump (current (lookup key m) window now) in (some e.count, insert key e m)

unfoldable pub mem_counter : Counter MemCounter
unfolding mem_incr
mem_counter = record { incr = mem_incr }

-- A counter that fails lets every request through and reports the failure.
pub allow-fails_open :
    {S : Type 0} (c : Counter S) (l : Limiter) (s : S) (key : Bytes) (now : ℕ)
    → (c.incr s (codes "rl:" ++ key) l.window now).0 ≡ none
    → ((allow c l s key now).0.allowed ≡ true) × ((allow c l s key now).0.failed ≡ true)
unfolding allow
allow-fails_open c l s key now h = ground arith
