-- ===== src/Failover/StateFile.antt =====
-- internal/relayfailover/statefile.go and render.go: the texts that the daemon leaves for the host's
-- hook. Of the file system only the content of each file is kept, and whether a write succeeds.
use mxsentinel.Prelude.{
  ℕ, ◌≡◌, Bool, true, false, ◌||◌, Option, none, some, List, [], ◌∷◌, ◌++◌, arith, ◌==◌,
  if◌then◌else◌, All,
}
use mathlib.Core.List.{Permᴰ}
use mxsentinel.Prelude.Text.{Bytes, codes, is_empty, trim_space, decimal}
use mxsentinel.Prelude.Sort.{
  bytes_le, bytes_le_total, bytes_le_trans, bytes_le_antisym, sort, sort-perm_eq,
}

-- The loop of `WriteDomains` over the sorted domains.
unfoldable pub domain_lines : List Bytes → Bytes
domain_lines [] = []
domain_lines (d ∷ ds) =
    let rest = domain_lines ds in
    let t = trim_space d in if is_empty t then rest else t ++ (10 ∷ rest)

unfoldable pub domains_text : List Bytes → Bytes
unfolding domain_lines
domains_text domains = domain_lines (sort bytes_le domains)

-- The two credential files; `none` is a missing file.
pub record Rendered : Type 0 where
  pub sasl : Option Bytes
  pub transport : Option Bytes

-- Whether the writes and the removals of the two files succeed.
pub record Writes : Type 0 where
  pub sasl_removed : Bool
  pub transport_removed : Bool
  pub sasl_ok : Bool
  pub transport_ok : Bool

abbrev pub endpoint : Bytes → ℕ → Bytes
endpoint host port = codes "[" ++ (host ++ (codes "]:" ++ decimal port))

abbrev pub default_port : ℕ → ℕ
default_port port = if port == 0 then 587 else port

unfoldable pub sasl_text : Bytes → ℕ → Bytes → Bytes → Bytes
sasl_text host port username password =
    endpoint host port ++ (codes " " ++ (username ++ (codes ":" ++ (password ++ codes "\n"))))

unfoldable pub transport_text : Bytes → ℕ → Bytes
transport_text host port =
    codes "FALLBACK_TRANSPORT=relay-mailbaby:" ++ (endpoint host port ++ codes "\n")

-- A failed removal is ignored; a failed write of the first file returns before the second.
unfoldable pub render_smarthost : Rendered → Writes → Bytes → ℕ → Bytes → Bytes → Rendered
unfolding sasl_text transport_text
render_smarthost files w host port username password =
    if is_empty host || (is_empty username || is_empty password)
    then record {
      sasl = if w.sasl_removed then none else files.sasl;
      transport = if w.transport_removed then none else files.transport;
    }
    else if w.sasl_ok
    then record {
      sasl = some (sasl_text host (default_port port) username password);
      transport =
          if w.transport_ok
          then some (transport_text host (default_port port))
          else files.transport;
    }
    else files

-- The file depends on the set of domains and on how often each is given, not on their order.
pub domains_text-perm : {ds es : List Bytes} → Permᴰ ds es → domains_text ds ≡ domains_text es
unfolding domains_text
domains_text-perm {ds} p = rw (
    sort-perm_eq bytes_le bytes_le_total bytes_le_trans (λ _. Unit {0})
      (λ a b _ _. bytes_le_antisym a b) p (all ds))
  where
    all : (xs : List Bytes) → All (λ _. Unit {0}) xs
    all [] = tt
    all (x ∷ xs) = (tt, all xs)

-- The transport's next hop is the key of the credential line: where both files are written, the
-- credential line begins with the same bracketed host and port that the transport names, so the
-- relay finds its password.
pub sasl-matches-transport :
    (files : Rendered) (w : Writes) (host : Bytes) (port : ℕ) (username password : Bytes)
    → is_empty host ≡ false
    → is_empty username ≡ false
    → is_empty password ≡ false
    → w.sasl_ok ≡ true
    → w.transport_ok ≡ true
    → let r = render_smarthost files w host port username password in
      (hop : Bytes) × (r.sasl
        ≡ some (hop ++ (codes " " ++ (username ++ (codes ":" ++ (password ++ codes "\n"))))))
      × (r.transport ≡ some (codes "FALLBACK_TRANSPORT=relay-mailbaby:" ++ (hop ++ codes "\n")))
unfolding render_smarthost
sasl-matches-transport files w host port username password h u p s t =
    (endpoint host (default_port port), ground arith, ground arith)
