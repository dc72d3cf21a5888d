-- ===== src/Telemetry/Durable.antt =====
-- The spool of internal/telemetry/spool.go under cmd/telemetryd/main.go: what becomes of each event
-- while the file system works.
use mxsentinel.Prelude.{
  ◌≡◌, refl, ap, ◌∙◌, inl, inr, Bool, true, false, not, ◌||◌, Option, none, some, List, [], ◌∷◌,
  ◌++◌, append_assoc, ◌==◌, Bool-cases, select, All, All-append, select-All, All-select_keep,
}
use mathlib.Core.List.{Permᴰ}
use mathlib.Core.List.Permᴰ as PermD
use mathlib.Core.Path.{subst}
use mxsentinel.Prelude.Text.{Bytes, split}
use mxsentinel.Telemetry.Spool.{
  complete, DrainIo, content, trim_newlines, is_entry, entries, lines_text, left_over, drain,
  Collector, handle, drain_once,
}

-- One line, not blank, that decodes: what marshalling an envelope gives.
abbrev pub IsEntry : (Bytes → Bool) → Bytes → Type 0
IsEntry decodes raw =
    All (λ c. (c == 10) ≡ false) raw × (is_entry raw ≡ true) × (decodes raw ≡ true)

-- An event that the bus takes or refuses, or a drain with the entries that the bus takes then.
pub data Step : Type 0 where
  event : Bool → Bytes → Step
  drained : (Bytes → Bool) → Step

abbrev working : DrainIo
working = record { read_fails = false; remove_fails = false; rewrite = complete }

unfoldable pub step : (Bytes → Bool) → Collector → Step → Collector
unfolding handle drain_once
step decodes c (event bus_takes raw) = handle complete bus_takes c raw
step decodes c (drained bus_takes) = drain_once working decodes bus_takes c

unfoldable pub run : (Bytes → Bool) → Collector → List Step → Collector
unfolding step
run decodes c [] = c
run decodes c (s ∷ ss) = run decodes (step decodes c s) ss

unfoldable pub events : List Step → List Bytes
events [] = []
events (event bus_takes raw ∷ ss) = raw ∷ events ss
events (drained bus_takes ∷ ss) = events ss

abbrev pub fresh : Collector
fresh = record { file = none; published = [] }

trim_newlines_line : (s : Bytes) → All (λ c. (c == 10) ≡ false) s → trim_newlines s ≡ s
unfolding trim_newlines
trim_newlines_line [] h = refl
trim_newlines_line (c ∷ s) h = rw h.0 (ap (λ r. c ∷ r) (trim_newlines_line s h.1))

split_line :
    (l s : Bytes) → All (λ c. (c == 10) ≡ false) l → split 10 (l ++ (10 ∷ s)) ≡ l ∷ split 10 s
unfolding split
split_line [] s h = refl
split_line (c ∷ l) s h = rw h.0 rw (split_line l s h.1) refl

module _ (decodes : Bytes → Bool) where
  entries_lines_text :
      (es : List Bytes) → All (IsEntry decodes) es → select is_entry (split 10 (lines_text es)) ≡ es
  unfolding lines_text select split is_entry
  entries_lines_text [] h = refl
  entries_lines_text (e ∷ es) h =
      rw (split_line e (lines_text es) h.0.0) rw h.0.1 (ap (λ r. e ∷ r) (entries_lines_text es h.1))

  lines_text-append :
      (es : List Bytes) (e : Bytes)
      → lines_text es ++ (e ++ (10 ∷ [])) ≡ lines_text (es ++ (e ∷ []))
  unfolding lines_text
  lines_text-append [] e = refl
  lines_text-append (d ∷ es) e =
      append_assoc d (10 ∷ lines_text es) (e ++ (10 ∷ []))
      ∙ ap (λ r. d ++ (10 ∷ r)) (lines_text-append es e)

  partition :
      (p : Bytes → Bool) (es : List Bytes) → Permᴰ es (select (λ l. not (p l)) es ++ select p es)
  unfolding select
  partition p [] = Permᴰ.nil
  partition p (e ∷ es) = elim (Bool-cases (p e)) [
    | inl q ↦ rw q (
        Permᴰ.trans (Permᴰ.cons refl (partition p es))
          (PermD.symm (PermD.middle e (select (λ l. not (p l)) es) (select p es))))
    | inr q ↦ rw q (Permᴰ.cons refl (partition p es))
  ]

  -- The file holds some entries, and these with the published ones are all events so far.
  abbrev Holds : List Bytes → Collector → Type 0
  Holds all c =
      (es : List Bytes) × (content c.file ≡ lines_text es)
      × All (IsEntry decodes) es
      × Permᴰ all (es ++ c.published)

  Holds-entries :
      (all : List Bytes) (c : Collector) → Holds all c → Permᴰ all (entries c.file ++ c.published)
  unfolding entries
  Holds-entries all c (es, e, h, p) = rw e rw (entries_lines_text es h) p

  spooled :
      (all : List Bytes) (c : Collector) (raw : Bytes)
      → IsEntry decodes raw
      → Holds all c
      → Holds (raw ∷ all) (handle complete false c raw)
  unfolding handle
  spooled all c raw i (es, e, h, p) = (
    es ++ (raw ∷ []),
    rw e rw (trim_newlines_line raw i.0) (lines_text-append es raw),
    All-append _ es (raw ∷ []) h (i, tt),
    rw (append_assoc es (raw ∷ []) c.published)
        (Permᴰ.trans (Permᴰ.cons refl p) (PermD.symm (PermD.middle raw es c.published))),
  )

  taken_directly :
      (all : List Bytes) (c : Collector) (raw : Bytes)
      → Holds all c
      → Holds (raw ∷ all) (handle complete true c raw)
  unfolding handle
  taken_directly all c raw (es, e, h, p) =
      (es, e, h, Permᴰ.trans (Permᴰ.cons refl p) (PermD.symm (PermD.middle raw es c.published)))

  left_over-content :
      (s : Bytes) (kept : List Bytes) → content (left_over working (some s) kept) ≡ lines_text kept
  unfolding lines_text
  left_over-content s [] = refl
  left_over-content s (l ∷ ls) = refl

  decoded : (es : List Bytes) → All (IsEntry decodes) es → All (λ l. decodes l ≡ true) es
  decoded [] h = tt
  decoded (e ∷ es) h = (h.0.2, decoded es h.1)

  drained-Holds :
      (bus_takes : Bytes → Bool) (all : List Bytes) (file : Option Bytes) (published : List Bytes)
      → Holds all (record { file = file; published = published })
      → Holds all
          (drain_once working decodes bus_takes (record { file = file; published = published }))
  unfolding drain_once drain entries select
  drained-Holds bus_takes all none published (es, e, h, p) = (es, e, h, p)
  drained-Holds bus_takes all (some s) published (es, e, h, p) =
      let takes = λ (l : Bytes). not (decodes l) || bus_takes l in
      let kept = select (λ l. not (takes l)) es in
      rw e rw (entries_lines_text es h) (
        kept,
        left_over-content s kept,
        All-select_keep (λ l. not (takes l)) _ es h,
        rw (select-All decodes (select takes es) (All-select_keep takes _ es (decoded es h))) (
            Permᴰ.trans p (
              subst (λ l. Permᴰ (es ++ published) l) (append_assoc kept (select takes es) published)
                (PermD.append_right published (partition takes es)))),
      )

  step-Holds :
      (all : List Bytes) (c : Collector) (s : Step)
      → All (IsEntry decodes) (events (s ∷ []))
      → Holds all c
      → Holds (events (s ∷ []) ++ all) (step decodes c s)
  unfolding step events
  step-Holds all c (event true raw) i h = taken_directly all c raw h
  step-Holds all c (event false raw) i h = spooled all c raw i.0 h
  step-Holds all c (drained bus_takes) i h = drained-Holds bus_takes all c.file c.published h

  Holds-perm : (all all' : List Bytes) (c : Collector) → Permᴰ all' all → Holds all c → Holds all' c
  Holds-perm all all' c q (es, e, h, p) = (es, e, h, Permᴰ.trans q p)

  run-Holds :
      (all : List Bytes) (c : Collector) (ss : List Step)
      → All (IsEntry decodes) (events ss)
      → Holds all c
      → Holds (events ss ++ all) (run decodes c ss)
  unfolding run events
  run-Holds all c [] i h = h
  run-Holds all c (event bus_takes raw ∷ ss) i h =
      let s = event bus_takes raw in
      Holds-perm (events ss ++ (raw ∷ all)) (raw ∷ (events ss ++ all))
        (run decodes (step decodes c s) ss) (PermD.symm (PermD.middle raw (events ss) all))
        (run-Holds (raw ∷ all) (step decodes c s) ss i.1 (step-Holds all c s (i.0, tt) h))
  run-Holds all c (drained bus_takes ∷ ss) i h =
      run-Holds all (step decodes c (drained bus_takes)) ss i
        (step-Holds all c (drained bus_takes) tt h)

  none_kept : (es : List Bytes) → select (λ l. not (not (decodes l) || true)) es ≡ []
  unfolding select
  none_kept [] = refl
  none_kept (e ∷ es) = elim (Bool-cases (decodes e)) [
    | inl q ↦ rw q (none_kept es)
    | inr q ↦ rw q (none_kept es)
  ]

  nothing_left :
      (file : Option Bytes) (published : List Bytes)
      → entries
          (drain_once working decodes
            (λ l. true)
            (record { file = file; published = published })).file
        ≡ []
  unfolding drain_once drain entries select split
  nothing_left none published = refl
  nothing_left (some s) published = rw (none_kept (select is_entry (split 10 s))) refl

  -- However events and drains follow each other, and whatever the bus refuses, while the file system
  -- works: the published events and the entries of the spool together are the
  -- events that came, each as often as it came, and a drain in which the bus takes everything
  -- leaves no entry.
  pub run-perm :
      (ss : List Step)
      → All (IsEntry decodes) (events ss)
      → let c = run decodes fresh ss in
        Permᴰ (events ss) (entries c.file ++ c.published)
        × (entries (drain_once working decodes (λ l. true) c).file ≡ [])
  unfolding lines_text
  run-perm ss i =
      let c = run decodes fresh ss in
      (
        Holds-entries (events ss) c (
            Holds-perm (events ss ++ []) (events ss) c (PermD.symm (PermD.append-nil (events ss)))
              (run-Holds [] fresh ss i ([], refl, tt, Permᴰ.nil))),
        nothing_left c.file c.published,
      )
