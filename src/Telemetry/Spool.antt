-- ===== src/Telemetry/Spool.antt =====
-- internal/telemetry/spool.go: the file of events that wait for the bus, and `handle` and
-- `drainOnce` of cmd/telemetryd/main.go, which fill and empty it. A file that does not exist is `none`.
use mxsentinel.Prelude.{
  ℕ, Bool, true, false, not, ◌&&◌, ◌||◌, Option, none, some, List, [], ◌∷◌, ◌++◌, ◌==◌,
  if◌then◌else◌, length, take, select,
}
use mxsentinel.Prelude.Text.{Bytes, is_empty, trim_space, split}

-- What a write does: the file is not opened, or so many bytes arrive.
pub data Write : Type 0 where
  not_opened complete : Write
  partial : ℕ → Write

-- What the file system answers in a drain.
pub record DrainIo : Type 0 where
  pub read_fails : Bool
  pub remove_fails : Bool
  pub rewrite : Write

pub record Drained : Type 0 where
  pub file : Option Bytes
  pub accepted : List Bytes
  pub kept : List Bytes
  pub failed : Bool

abbrev pub content : Option Bytes → Bytes
content none = []
content (some s) = s

abbrev pub write_out : Write → Option Bytes → Bytes → Bytes → Option Bytes
write_out not_opened file base line = file
write_out complete file base line = some (base ++ line)
write_out (partial n) file base line = some (base ++ take n line)

-- bytes.TrimRight at line ends.
unfoldable pub trim_newlines : Bytes → Bytes
unfolding is_empty
trim_newlines [] = []
trim_newlines (c ∷ s) = let r = trim_newlines s in if c == 10 && is_empty r then [] else c ∷ r

-- `Append`.
unfoldable pub append : Write → Option Bytes → Bytes → Option Bytes
unfolding trim_newlines
append w file raw = write_out w file (content file) (trim_newlines raw ++ (10 ∷ []))

unfoldable pub is_entry : Bytes → Bool
unfolding trim_space is_empty
is_entry line = not (is_empty (trim_space line))

-- The lines of the file that are not blank.
unfoldable pub entries : Option Bytes → List Bytes
unfolding is_entry
entries file = select is_entry (split 10 (content file))

-- bytes.Join at line ends, with the line end that follows it.
unfoldable pub lines_text : List Bytes → Bytes
lines_text [] = []
lines_text (l ∷ ls) = l ++ (10 ∷ lines_text ls)

-- What is left of the file: it is removed, or write_out anew, which empties it first.
abbrev pub left_over : DrainIo → Option Bytes → List Bytes → Option Bytes
left_over io file [] = if io.remove_fails then file else none
left_over io file (l ∷ ls) = write_out io.rewrite file [] (lines_text (l ∷ ls))

abbrev incomplete : Write → Bool
incomplete complete = false
incomplete _ = true

abbrev pub ended_badly : DrainIo → List Bytes → Bool
ended_badly io [] = io.remove_fails
ended_badly io (l ∷ ls) = incomplete io.rewrite

-- `Drain`, where `takes` tells which entries its function handles.
unfoldable pub drain : DrainIo → (Bytes → Bool) → Option Bytes → Drained
unfolding entries lines_text
drain io takes none = record { file = none; accepted = []; kept = []; failed = false }
drain io takes (some s) =
    let taken = select takes (entries (some s)) in
    let kept = select (λ l. not (takes l)) (entries (some s)) in
    if io.read_fails
    then record { file = some s; accepted = []; kept = []; failed = true }
    else record {
      file = left_over io (some s) kept;
      accepted = taken;
      kept = kept;
      failed = ended_badly io kept;
    }

-- `Len`; a file that cannot be read is an error.
unfoldable pub len : Bool → Option Bytes → Option ℕ
unfolding entries
len read_fails none = some 0
len read_fails (some s) = if read_fails then none else some (length (entries (some s)))

-- The spool, and what the bus has accepted.
pub record Collector : Type 0 where
  pub file : Option Bytes
  pub published : List Bytes

-- The publishing part of `handle`, on a marshalled envelope: the bus takes it, or it is spooled.
unfoldable pub handle : Write → Bool → Collector → Bytes → Collector
unfolding append
handle w bus_takes c raw =
    if bus_takes
    then record c { published = raw ∷ c.published }
    else record c { file = append w c.file raw }

-- `drainOnce`: an entry that is no envelope is dropped, which counts as handled.
unfoldable pub drain_once : DrainIo → (Bytes → Bool) → (Bytes → Bool) → Collector → Collector
unfolding drain
drain_once io decodes bus_takes c =
    let d = drain io (λ l. not (decodes l) || bus_takes l) c.file in
    record { file = d.file; published = select decodes d.accepted ++ c.published }
