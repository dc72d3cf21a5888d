-- ===== src/RateLimit/Tests.antt =====
-- The limiter at concrete requests.
use Prim.Native.Nat.{min}
use mxsentinel.Prelude.{
  ℕ, zero, suc, ◌+◌, ◌-◌, ◌*◌, ◌/◌, ◌%◌, ◌≤◌, ◌<◌, ◌≡◌, refl, sym, ap, ◌∙◌, ◌≢◌, ◌↔◌, ◌⊎◌, inl, inr,
  Bool, true, false, not, ◌&&◌, ◌||◌, Option, none, some, List, [], ◌∷◌, ◌++◌, map, append_assoc,
  append-nil, arith, String, str_eq, eq_iff, eq_refl, ltb, leb, ◌==◌, if◌then◌else◌, ltb→lt, lt→ltb,
  leb→le, le→leb, ==→eq, ==_refl, Bool-cases, &&-left, &&-right, ||-cases, length, take, select,
  any, length-append, length-take_le, All, All-append, All-select, length-select, select-All,
  All-select_keep,
}
use mxsentinel.Prelude.Text.{Bytes, codes}
use mxsentinel.Prelude.Assoc.{lookup, bytes_key}
use mxsentinel.RateLimit.Limiter.{Counter, Limiter}
use mxsentinel.RateLimit.Window.{Request, granted, requests, granted_window}

abbrev two_per_minute : Limiter
two_per_minute = record { limit = 2; window = 60 }

abbrev at : String → ℕ → Request
at k t = record { key = codes k; now = t }

abbrev later : List Request
later = at "b" 11 ∷ at "a" 20 ∷ at "a" 60 ∷ at "a" 70 ∷ []

granted_window_example :
    granted two_per_minute (codes "a") [] (record { key = codes "a"; now = 10 } ∷ later)
    ≡ min (1 + requests (codes "a") later) 2
granted_window_example =
    granted_window two_per_minute (codes "a") [] 10 later (λ e h. absurd (unfold lookup in cc))
      (omega arith)

third_refused :
    granted two_per_minute (codes "a") [] (record { key = codes "a"; now = 10 } ∷ later) ≡ 2
unfolding granted requests mxsentinel.Prelude.Text.bytes_eq
third_refused = granted_window_example

-- A counter that is down.
abbrev down : Counter (Unit {0})
down = record { incr = λ s k w n. (none, s) }
