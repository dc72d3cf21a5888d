-- ===== src/Telemetry/Tests.antt =====
-- A small log and a small spool.
use mxsentinel.Prelude.{
  ℕ, zero, suc, ◌+◌, ◌-◌, ◌*◌, ◌/◌, ◌%◌, ◌≤◌, ◌<◌, ◌≡◌, refl, sym, ap, ◌∙◌, ◌≢◌, ◌↔◌, ◌⊎◌, inl, inr,
  Bool, true, false, not, ◌&&◌, ◌||◌, Option, none, some, List, [], ◌∷◌, ◌++◌, map, append_assoc,
  append-nil, arith, String, str_eq, eq_iff, eq_refl, ltb, leb, ◌==◌, if◌then◌else◌, ltb→lt, lt→ltb,
  leb→le, le→leb, ==→eq, ==_refl, Bool-cases, &&-left, &&-right, ||-cases, length, take, select,
  any, length-append, length-take_le, All, All-append, All-select, length-select, select-All,
  select-append, All-select_keep,
}
use mathlib.Core.List.{Permᴰ}
use mxsentinel.Prelude.Text.{Bytes, codes, contains}
use mxsentinel.Telemetry.Spool.{complete, partial, DrainIo, entries, drain, append, drain_once}
use mxsentinel.Telemetry.Durable.{Step, event, drained, events, run, fresh, run-perm}
use mxsentinel.Telemetry.Words.{
  delivered, hard, classify_bounce, bounced, ensure_angle, classify_provider, domain_part,
}
use mxsentinel.Telemetry.Parser.{Matchers, parse_all}
use mxsentinel.Telemetry.Apart.{is_about, own_lines}
use mxsentinel.Telemetry.Messages.{messages, each_alone, parse_all-messages}

abbrev steps : List Step
steps =
    event false (codes "one")
    ∷ event true (codes "two")
    ∷ drained (λ l. contains l (codes "x"))
    ∷ event false (codes "three")
    ∷ []

two_wait : entries (run (λ l. true) fresh steps).file ≡ codes "one" ∷ codes "three" ∷ []
unfolding run select mxsentinel.Prelude.Text.split contains
two_wait = refl

run-perm_example :
    let c = run (λ l. true) fresh steps in
    Permᴰ (events steps) (entries c.file ++ c.published)
    × (entries
          (drain_once
            (record { read_fails = false; remove_fails = false; rewrite = complete })
            (λ l. true)
            (λ l. true)
            c).file
        ≡ [])
unfolding mxsentinel.Telemetry.Spool.is_entry events mxsentinel.Prelude.Text.trim_space
run-perm_example =
    run-perm (λ l. true) steps
      (
        ((refl, (refl, (refl, tt))), refl, refl),
        (
          ((refl, (refl, (refl, tt))), refl, refl),
          (((refl, (refl, (refl, (refl, (refl, tt))))), refl, refl), tt),
        ),
      )

-- The rewrite of the spool empties the file first: when the disk is full, what was kept is lost.
full_disk :
    (drain
      (record { read_fails = false; remove_fails = false; rewrite = partial 0 })
      (λ l. false)
      (some (codes "one\n"))).file
    ≡ some []
unfolding drain select mxsentinel.Prelude.Text.split
full_disk = refl

-- A write that stops short leaves a line without an end, to which the next entry is joined.
joined :
    entries (append complete (append (partial 2) none (codes "one")) (codes "two"))
    ≡ codes "ontwo" ∷ []
unfolding append entries select mxsentinel.Prelude.Text.split
joined = refl

behind : ℕ → Bytes → Bytes
behind zero s = s
behind (suc n) [] = []
behind (suc n) (c ∷ s) = behind n s

-- A queue id of two bytes, a colon and a blank; a field is the whole text.
abbrev toy : Matchers
toy = record {
  line = λ l. some l;
  queue = λ l. some (take 2 l, behind 4 l);
  from = λ kv. some kv;
  size = λ kv. none;
  message_id = λ kv. none;
  to = λ kv. some (codes "bob@b.org");
  relay = λ kv. none;
  dsn = λ kv. some (codes "5.1.1");
  status = λ kv. some (codes "bounced");
  response = λ kv. some (codes "550 5.1.1 <bob@b.org>: User unknown");
  code = λ kv. some (codes "550");
  host_ip = λ h. none;
  sasl_username = λ kv. none;
  time = λ l. 0;
  digest = λ a. codes "d1";
}

abbrev log : List Bytes
log =
    codes "q1: from=ann@a.org size="
    ∷ codes "q2: from=eve@e.org size="
    ∷ codes "q1: status=bounced"
    ∷ codes "q2: status=bounced"
    ∷ codes "q1: removed"
    ∷ codes "q1: status=bounced"
    ∷ []

-- Once a message is removed, its sender is no longer known.
senders :
    map (λ e. e.payload.from_domain) (parse_all toy [] log [])
    ≡ codes "a.org size=" ∷ codes "e.org size=" ∷ [] ∷ []
unfolding parse_all behind mxsentinel.Prelude.Text.bytes_eq contains
    mxsentinel.Telemetry.Words.map_status mxsentinel.Prelude.Text.to_lower
    mxsentinel.Prelude.Assoc.lookup mxsentinel.Prelude.Assoc.insert mxsentinel.Prelude.Assoc.erase
    domain_part mxsentinel.Prelude.Text.trim_space
senders = refl

-- The address of the recipient is in the response, which is kept.
address_kept :
    map
      (λ e. contains e.payload.response_text (codes "bob@b.org"))
      (parse_all toy [] (codes "q1: status=bounced" ∷ []) [])
    ≡ true ∷ []
unfolding parse_all behind mxsentinel.Prelude.Text.bytes_eq contains
    mxsentinel.Telemetry.Words.map_status mxsentinel.Prelude.Text.to_lower
    mxsentinel.Telemetry.Words.truncate
address_kept = refl

angles : ensure_angle (codes "id@h") ≡ codes "<id@h>"
unfolding ensure_angle mxsentinel.Prelude.Text.is_empty mxsentinel.Prelude.Text.trim_space
    mxsentinel.Prelude.Text.has_prefix
angles = refl

-- A submission that is given up leaves no line `removed`: the next message of its queue id has its user.
abandoned :
    map
      (λ e. e.payload.sasl_username)
      (parse_all
        (record toy { sasl_username = λ kv. some (codes "ann") })
        []
        (codes "q1: sasl_username=ann"
          ∷ codes "q1: from=bob@b.org size="
          ∷ codes "q1: status=bounced"
          ∷ [])
        [])
    ≡ codes "ann" ∷ []
unfolding parse_all behind mxsentinel.Prelude.Text.bytes_eq contains
    mxsentinel.Telemetry.Words.map_status mxsentinel.Prelude.Text.to_lower
    mxsentinel.Prelude.Assoc.lookup mxsentinel.Prelude.Assoc.insert mxsentinel.Prelude.Assoc.erase
    domain_part mxsentinel.Prelude.Text.trim_space
abandoned = refl

parse_all-messages_example :
    select (is_about (codes "q1")) (parse_all toy [] log [])
    ≡ each_alone toy [] (messages toy [] (own_lines toy [] (codes "q1") log))
parse_all-messages_example = parse_all-messages toy [] (codes "q1") log
