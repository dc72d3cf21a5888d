-- ===== src/Prelude/Text.antt =====
-- Text as the list of its bytes, with the functions of Go's `strings` that the program calls. The
-- texts that it examines (reply lines, record texts, header values) are read as ASCII.
use Prim.Native.Nat.{ℕ, zero, suc, ◌+◌, ◌/◌, ◌%◌}
use Prim.Native.Char.{code}
use Prim.Native.String.{String}
use mathlib.Core.Path.{◌≡◌, refl}
use mathlib.Core.Logic.{inl, inr}
use mathlib.Core.Bool.{Bool, true, false, ◌&&◌, ◌||◌}
use mathlib.Core.Option.{Option, none, some}
use mathlib.Core.List.{List, [], ◌∷◌, ◌++◌, map}
use native.Mathlib.Omega.{arith}
use mxsentinel.Prelude.Tests.{if◌then◌else◌, ◌==◌, leb, ltb, ||-cases}

abbrev pub Bytes : Type 0
Bytes = List ℕ

-- The code points of a literal: its bytes, since the literals are ASCII.
abbrev pub codes : String → Bytes
codes String.[] = []
codes (String.◌∷◌ c s) = code c ∷ codes s

-- `==` on strings.
unfoldable pub bytes_eq : Bytes → Bytes → Bool
bytes_eq [] [] = true
bytes_eq [] (d ∷ t) = false
bytes_eq (c ∷ s) [] = false
bytes_eq (c ∷ s) (d ∷ t) = c == d && bytes_eq s t

pub bytes_eq→eq : (s t : Bytes) → bytes_eq s t ≡ true → s ≡ t
unfolding bytes_eq
bytes_eq→eq [] [] h = refl
bytes_eq→eq [] (d ∷ t) h = cc
bytes_eq→eq (c ∷ s) [] h = cc
bytes_eq→eq (c ∷ s) (d ∷ t) h = ground (arith, bytes_eq→eq s t)

pub bytes_eq_refl : (s : Bytes) → bytes_eq s s ≡ true
unfolding bytes_eq
bytes_eq_refl [] = refl
bytes_eq_refl (c ∷ s) = ground (arith, bytes_eq_refl s)

unfoldable pub is_empty : Bytes → Bool
is_empty [] = true
is_empty (c ∷ s) = false

-- strings.HasPrefix, with the prefix first.
unfoldable pub has_prefix : Bytes → Bytes → Bool
has_prefix [] s = true
has_prefix (c ∷ p) [] = false
has_prefix (c ∷ p) (d ∷ s) = c == d && has_prefix p s

-- strings.Contains.
unfoldable pub contains : Bytes → Bytes → Bool
unfolding has_prefix
contains [] n = has_prefix n []
contains (c ∷ s) n = has_prefix n (c ∷ s) || contains s n

-- containsAny of bounce/classify.go and correlate/rejection.go: a loop over the needles.
unfoldable pub contains_any : Bytes → List Bytes → Bool
contains_any h [] = false
contains_any h (n ∷ ns) = if contains h n then true else contains_any h ns

pub has_prefix→eq : (p s : Bytes) → has_prefix p s ≡ true → (post : Bytes) × (s ≡ p ++ post)
unfolding has_prefix
has_prefix→eq [] s h = (s, refl)
has_prefix→eq (c ∷ p) [] h = absurd (cc)
has_prefix→eq (c ∷ p) (d ∷ s) h =
    let (post, e) = has_prefix→eq p s (ground arith) in (post, ground arith)

pub has_prefix-append : (p post : Bytes) → has_prefix p (p ++ post) ≡ true
unfolding has_prefix
has_prefix-append [] post = refl
has_prefix-append (c ∷ p) post = ground (arith, has_prefix-append p post)

-- Where one text stands inside another.
abbrev pub IsInfix : Bytes → Bytes → Type 0
IsInfix n h = (pre : Bytes) × (post : Bytes) × (h ≡ pre ++ (n ++ post))

pub contains→IsInfix : (h n : Bytes) → contains h n ≡ true → IsInfix n h
unfolding contains
contains→IsInfix [] n e = let (post, q) = has_prefix→eq n [] e in ([], post, q)
contains→IsInfix (c ∷ h) n e = elim (||-cases _ _ e) [
  | inl p ↦ let (post, q) = has_prefix→eq n (c ∷ h) p in ([], post, q)
  | inr p ↦ let (pre, post, q) = contains→IsInfix h n p in (c ∷ pre, post, cc)
]

pub IsInfix→contains : (pre n post : Bytes) → contains (pre ++ (n ++ post)) n ≡ true
unfolding contains
IsInfix→contains [] [] [] = refl
IsInfix→contains [] [] (d ∷ post) = refl
IsInfix→contains [] (c ∷ n) post = ground (arith, has_prefix-append (c ∷ n) post)
IsInfix→contains (c ∷ pre) n post = ground (arith, IsInfix→contains pre n post)

-- strings.ToLower, letter by letter.
unfoldable pub lower : ℕ → ℕ
lower c = if leb b'A' c && leb c b'Z' then c + 32 else c

unfoldable pub to_lower : Bytes → Bytes
unfolding lower
to_lower s = map lower s

pub to_lower_idem : (s : Bytes) → to_lower (to_lower s) ≡ to_lower s
unfolding to_lower
to_lower_idem [] = refl
to_lower_idem (c ∷ s) = ground (arith, to_lower_idem s)

-- strings.TrimSpace.
unfoldable pub is_space : ℕ → Bool
is_space c = c == 32 || (leb 9 c && leb c 13)

unfoldable pub trim_left : Bytes → Bytes
unfolding is_space
trim_left [] = []
trim_left (c ∷ s) = if is_space c then trim_left s else c ∷ s

unfoldable pub trim_right : Bytes → Bytes
unfolding is_space is_empty
trim_right [] = []
trim_right (c ∷ s) = let r = trim_right s in if is_space c && is_empty r then [] else c ∷ r

unfoldable pub trim_space : Bytes → Bytes
unfolding trim_left trim_right
trim_space s = trim_right (trim_left s)

-- strings.TrimSuffix(s, ".")
unfoldable pub trim_dot : Bytes → Bytes
trim_dot [] = []
trim_dot (c ∷ s) = let r = trim_dot s in if c == 46 && is_empty s then [] else c ∷ r

-- What follows the last `@`.
unfoldable pub after_last_at : Bytes → Option Bytes
after_last_at [] = none
after_last_at (c ∷ s) = or_here (after_last_at s) c s
  where
    or_here : Option Bytes → ℕ → Bytes → Option Bytes
    or_here (some t) c s = some t
    or_here none c s = if c == 64 then some s else none

-- What `split` prepends to the pieces of the rest.
unfoldable pub grow : ℕ → List Bytes → List Bytes
grow c [] = (c ∷ []) ∷ []
grow c (p ∷ ps) = (c ∷ p) ∷ ps

-- strings.Split at a one-byte separator: always at least one piece.
unfoldable pub split : ℕ → Bytes → List Bytes
unfolding grow
split sep [] = [] ∷ []
split sep (c ∷ s) = let r = split sep s in if c == sep then [] ∷ r else grow c r

-- fmt's `%d` of a natural number.
pub decimal_fuel : ℕ → ℕ → Bytes → Bytes
decimal_fuel zero n out = out
decimal_fuel (suc f) n out =
    let d = (b'0' + n % 10) ∷ out in
    let rest = decimal_fuel f (n / 10) d in if ltb n 10 then d else rest

-- The fuel is the number itself and one more: each round divides by ten.
unfoldable pub decimal : ℕ → Bytes
unfolding decimal_fuel
decimal n = decimal_fuel (suc n) n []
