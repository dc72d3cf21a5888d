-- ===== src/Bounce/Export.antt =====
-- internal/bounce/suppression.go: the export of the suppression list for the relay. The formatted
-- time of the header is an argument.
use mxsentinel.Prelude.Sort.{Permᴰ-select}
use mathlib.Core.List.{Permᴰ}
use mxsentinel.Prelude.{
  ℕ, ◌+◌, ◌≡◌, refl, ◌∙◌, ◌⊎◌, inl, inr, Bool, true, not, Option, List, [], ◌∷◌, ◌++◌, map, arith,
  ◌==◌, if◌then◌else◌, Bool-cases, length, select, All, All-select, All-select_keep,
}
use mxsentinel.Prelude.Text.{Bytes, codes, bytes_eq, is_empty, trim_space, decimal}
use mxsentinel.Prelude.Sort.{
  bytes_le, bytes_le_total, bytes_le_trans, bytes_le_antisym, sort, sort-perm_eq, IsSorted,
  sort-IsSorted, All-sort,
}

pub record SuppressionRecord : Type 0 where
  pub recipient_hash : Bytes
  pub reason : Bytes
  pub category : Bytes
  pub source : Bytes
  pub expires_at : Option ℕ

-- strings.ReplaceAll(s, "\n", " ")
unfoldable pub one_line : Bytes → Bytes
one_line s = map (λ c. if c == 10 then 32 else c) s

-- A record with a blank hash is skipped.
unfoldable pub has_key : SuppressionRecord → Bool
has_key r = not (is_empty (trim_space r.recipient_hash))

unfoldable pub hash_le : SuppressionRecord → SuppressionRecord → Bool
hash_le a b = bytes_le a.recipient_hash b.recipient_hash

unfoldable pub exported : List SuppressionRecord → List SuppressionRecord
exported records = sort hash_le (select has_key records)

-- The reason, or else the category, or else a fixed word.
unfoldable pub reason_text : SuppressionRecord → Bytes
unfolding is_empty
reason_text r =
    let reason = if is_empty r.reason then r.category else r.reason in
    if is_empty reason then codes "suppressed" else reason

unfoldable pub postfix_reason : SuppressionRecord → Bytes
postfix_reason r = codes "MX Sentinel suppressed: " ++ one_line (reason_text r)

unfoldable pub render : Bytes → SuppressionRecord → Bytes
render format r =
    if bytes_eq format (codes "postfix")
    then r.recipient_hash ++ (codes " REJECT " ++ (postfix_reason r ++ codes "\n"))
    else r.recipient_hash ++ codes "\n"

unfoldable pub render_all : Bytes → List SuppressionRecord → Bytes
unfolding render
render_all format [] = []
render_all format (r ∷ rs) = render format r ++ render_all format rs

unfoldable pub export_header : Bytes → Bytes → ℕ → Bytes
export_header format generated_at entries =
    codes "# MX Sentinel suppression list ("
    ++ (format
        ++ (codes ")\n# generated_at="
            ++ (generated_at
                ++ (codes " entries="
                    ++ (decimal entries
                        ++ codes
                            "\n# keys are HMAC-SHA256 recipient hashes; no plaintext addresses are exported\n")))))

unfoldable pub build_export : Bytes → List SuppressionRecord → Bytes → Bytes
unfolding exported render_all export_header
build_export format records generated_at =
    export_header format generated_at (length (exported records))
    ++ render_all format (exported records)

hash_le_total : (a b : SuppressionRecord) → (hash_le a b ≡ true) ⊎ (hash_le b a ≡ true)
unfolding hash_le
hash_le_total a b = bytes_le_total a.recipient_hash b.recipient_hash

hash_le_trans :
    (a b c : SuppressionRecord) → hash_le a b ≡ true → hash_le b c ≡ true → hash_le a c ≡ true
unfolding hash_le
hash_le_trans a b c = bytes_le_trans a.recipient_hash b.recipient_hash c.recipient_hash

-- The records are the entries of a table keyed by the hash.
abbrev pub IsEntry : (Bytes → SuppressionRecord) → SuppressionRecord → Type 0
IsEntry table r = table r.recipient_hash ≡ r

hash_le_antisym :
    (table : Bytes → SuppressionRecord) (a b : SuppressionRecord)
    → IsEntry table a
    → IsEntry table b
    → hash_le a b ≡ true
    → hash_le b a ≡ true
    → a ≡ b
unfolding hash_le
hash_le_antisym table a b p q h k = cc (bytes_le_antisym a.recipient_hash b.recipient_hash h k)

-- The export does not depend on the order in which the store lists the records, when they are the
-- entries of a table keyed by the recipient hash: the text is the same byte for byte.
pub build_export-perm :
    (table : Bytes → SuppressionRecord) (format generated_at : Bytes)
    {xs ys : List SuppressionRecord}
    → Permᴰ xs ys
    → All (IsEntry table) xs
    → build_export format xs generated_at ≡ build_export format ys generated_at
unfolding build_export
build_export-perm table format generated_at {xs} {ys} p h = rw (
    sort-perm_eq hash_le hash_le_total hash_le_trans (IsEntry table) (hash_le_antisym table)
      (Permᴰ-select has_key p) (All-select_keep has_key (IsEntry table) xs h))

-- The exported records are sorted by hash, and none has a blank hash.
pub exported-IsSorted :
    (records : List SuppressionRecord)
    → IsSorted hash_le (exported records) × All (λ r. has_key r ≡ true) (exported records)
unfolding exported
exported-IsSorted records = (
  sort-IsSorted hash_le hash_le_total hash_le_trans (select has_key records),
  All-sort hash_le hash_le_total hash_le_trans (λ r. has_key r ≡ true) (select has_key records)
      (All-select has_key records),
)

-- How many line ends a text holds.
unfoldable pub newlines : Bytes → ℕ
newlines [] = 0
newlines (c ∷ s) = (if c == 10 then 1 else 0) + newlines s

newlines-append : (s t : Bytes) → newlines (s ++ t) ≡ newlines s + newlines t
unfolding newlines
newlines-append [] t = omega arith
newlines-append (c ∷ s) t = omega (arith, newlines-append s t)

newlines-one_line : (s : Bytes) → newlines (one_line s) ≡ 0
unfolding newlines one_line
newlines-one_line [] = refl
newlines-one_line (c ∷ s) = ground (arith, newlines-one_line s)

newlines-postfix_reason : (r : SuppressionRecord) → newlines (postfix_reason r) ≡ 0
unfolding newlines postfix_reason
newlines-postfix_reason r = omega (arith, newlines-one_line (reason_text r))

newlines-render :
    (format : Bytes) (r : SuppressionRecord)
    → newlines r.recipient_hash ≡ 0
    → newlines (render format r) ≡ 1
unfolding newlines render postfix_reason
newlines-render format r h = elim (Bool-cases (bytes_eq format (codes "postfix"))) [
  | inl e ↦
      rw (e, newlines-append, newlines-append, newlines-append, newlines-append)
        (omega (arith, h, newlines-postfix_reason r))
  | inr e ↦ rw (e, newlines-append) (omega (arith, h))
]

-- In both formats the body has one line for each exported record, whatever its reason and category
-- hold, when no recipient hash holds a line end: a reason cannot smuggle in a line of its own.
pub render_all-lines :
    (format : Bytes) (records : List SuppressionRecord)
    → All (λ r. newlines r.recipient_hash ≡ 0) records
    → newlines (render_all format (exported records)) ≡ length (exported records)
unfolding exported newlines render_all
render_all-lines format records h = lines (sort hash_le (select has_key records)) (
    All-sort hash_le hash_le_total hash_le_trans (λ r. newlines r.recipient_hash ≡ 0)
      (select has_key records)
      (All-select_keep has_key (λ r. newlines r.recipient_hash ≡ 0) records h))
  where
    lines :
        (rs : List SuppressionRecord)
        → All (λ r. newlines r.recipient_hash ≡ 0) rs
        → newlines (render_all format rs) ≡ length rs
    lines [] k = refl
    lines (r ∷ rs) k =
        newlines-append (render format r) (render_all format rs)
        ∙ omega (arith, newlines-render format r k.0, lines rs k.1)
