-- ===== src/Dns/PollTests.antt =====
-- Polls of a domain by cmd/dnsd/main.go.
use mxsentinel.Prelude.{
  ℕ, zero, suc, ◌+◌, ◌-◌, ◌*◌, ◌/◌, ◌%◌, ◌≤◌, ◌<◌, ◌≡◌, refl, sym, ap, ◌∙◌, ◌≢◌, ◌↔◌, ◌⊎◌, inl, inr,
  Bool, true, false, not, ◌&&◌, ◌||◌, Option, none, some, List, [], ◌∷◌, ◌++◌, map, append_assoc,
  append-nil, arith, String, str_eq, eq_iff, eq_refl, ltb, leb, ◌==◌, if◌then◌else◌, ltb→lt, lt→ltb,
  leb→le, le→leb, ==→eq, ==_refl, Bool-cases, &&-left, &&-right, ||-cases, length, take, select,
  any, length-append, length-take_le, All, All-append, All-select, length-select, select-All,
  select-append, All-select_keep,
}
use mxsentinel.Prelude.Text.{Bytes, codes}
use mxsentinel.Dns.Findings.{RecordFinding, finding, warning, spf, spf_missing}
use mxsentinel.Dns.Inspect.{DnsState, Snapshot}
use mxsentinel.Dns.Poll.{PollIo, is_alertable}
use mxsentinel.Dns.Announced.{IsChanging, run, unmonitored, run-IsChanging}

abbrev snapshot : Bytes → List RecordFinding → Snapshot
snapshot txt findings = record {
  state = record {
    domain = codes "x.com";
    mx_hosts = [];
    spf_record = txt;
    dmarc_record = [];
    dkim_records = [];
    mta_sts = [];
    tls_rpt = [];
    bimi = [];
  };
  findings = findings;
  healthy = true;
}

abbrev sum : DnsState → Bytes
sum s = codes "#" ++ s.spf_record

abbrev fine : PollIo
fine = record {
  prior_fails = false;
  insert_fails = false;
  change_refused = false;
  alert_refused = false;
}

abbrev warned : List RecordFinding
warned = finding spf warning spf_missing ∷ []

abbrev polls : List (PollIo × Snapshot)
polls =
    (fine, snapshot (codes "v=spf1 -all") [])
    ∷ (fine, snapshot (codes "v=spf1 -all") [])
    ∷ (record fine { insert_fails = true }, snapshot [] warned)
    ∷ (fine, snapshot [] warned)
    ∷ []

two_rows : length (run sum polls unmonitored).rows ≡ 2
unfolding run mxsentinel.Prelude.Text.bytes_eq mxsentinel.Prelude.Text.is_empty
two_rows = refl

-- An alert that the bus refuses is not tried again: the row is stored, so that nothing has changed.
alert_lost :
    (run sum
      ((record fine { alert_refused = true }, snapshot [] warned) ∷ (fine, snapshot [] warned) ∷ [])
      unmonitored).alerts
    ≡ []
unfolding run mxsentinel.Prelude.Text.bytes_eq mxsentinel.Prelude.Text.is_empty any
alert_lost = refl

-- Findings that change while the records of the domain itself do not are not stored.
findings_unseen :
    (run sum ((fine, snapshot [] []) ∷ (fine, snapshot [] warned) ∷ []) unmonitored).alerts ≡ []
unfolding run mxsentinel.Prelude.Text.bytes_eq mxsentinel.Prelude.Text.is_empty any
findings_unseen = refl

run-IsChanging_example :
    let m = run sum polls unmonitored in IsChanging m.rows × (m.alerts ≡ select is_alertable m.rows)
run-IsChanging_example = run-IsChanging sum polls (refl, (refl, (refl, (refl, tt))))
