-- ===== src/LogSummary.antt =====
-- log-summary/app/fw_log_summary.py: the summary of the firewall's log events. What the regular
-- expressions find in a line, and the time of the line, are arguments.
pub mod Counts
pub mod Ranking
use l4d2_iptable_suite.Base.{
  ℕ, zero, suc, ◌+◌, ◌-◌, ◌*◌, Bool, true, false, not, ◌&&◌, ◌||◌, ◌===◌, ◌==◌, String, Option,
  none, some, List, [], ◌∷◌, ◌++◌, map, length, take, leb, ltb, if◌then◌else◌, is_some,
}
use l4d2_iptable_suite.Base.Sets.{lookup, lookup_or, insert_once}

-- the fields of an event, a dictionary
abbrev pub Event : Type 0
Event = List (String × String)

-- `fields[key] = value`
unfoldable pub set_field : Event → String → String → Event
set_field [] k v = (k, v) ∷ []
set_field ((j, w) ∷ fs) k v = if j === k then (k, v) ∷ fs else (j, w) ∷ set_field fs k v

-- What `KV_RE`, `SRC_RE`, `DPT_RE` and `LEN_RE` find in a line that `FW_EVT_RE` matches.
pub record Found : Type 0 where
  pub pairs : List (String × String)
  pub source : Option String
  pub port : Option String
  pub packet_length : Option String

abbrev pub collect : List (String × String) → Event → Event
collect [] fields = fields
collect ((k, v) ∷ kvs) fields = collect kvs (set_field fields k v)

-- `if canonical_key not in fields and short_key in fields: ...`
abbrev pub alias_of : Option String → Option String → Event → String → Event
alias_of none (some v) fields canonical = set_field fields canonical v
alias_of _ _ fields canonical = fields

abbrev pub alias : String → String → Event → Event
alias short canonical fields =
    alias_of (lookup fields canonical) (lookup fields short) fields canonical

unfoldable pub parse_fw_evt : Option Found → Option Event
unfolding set_field lookup
parse_fw_evt none = none
parse_fw_evt (some f) =
    let fields = collect f.pairs [] in
    if not (is_some (lookup fields "attack"))
    then none
    else some (
        set_field
          (set_field
            (set_field
              (alias "sev" "severity" (
                alias "act" "action"
                  (alias "ch" "chain" (alias "mod" "module" (alias "be" "backend" fields)))))
              "src" (lookup_or f.source ""))
            "dpt" (lookup_or f.port ""))
          "pkt_len" (lookup_or f.packet_length ""))

-- `Counter`: `counter[k] += 1`
abbrev pub Counter : Type 0
Counter = List (String × ℕ)

unfoldable pub bump : String → Counter → Counter
bump k [] = (k, 1) ∷ []
bump k ((j, n) ∷ c) = if j === k then (j, suc n) ∷ c else (j, n) ∷ bump k c

-- the counter of one field of the events, which are counted in their order
unfoldable pub tally_into : (Event → String) → List Event → Counter → Counter
unfolding bump
tally_into key [] c = c
tally_into key (e ∷ es) c = tally_into key es (bump (key e) c)

abbrev pub tally : (Event → String) → List Event → Counter
tally key es = tally_into key es []

-- `counter.most_common(n)`: the highest counts first, equal ones in the order of their first events
unfoldable pub rank : String × ℕ → Counter → Counter
rank x [] = x ∷ []
rank x (y ∷ c) = let rest = rank x c in if leb y.1 x.1 then x ∷ y ∷ c else y ∷ rest

unfoldable pub ranked : Counter → Counter
unfolding rank
ranked [] = []
ranked (x ∷ c) = rank x (ranked c)

unfoldable pub most_common : ℕ → Counter → Counter
unfolding ranked
most_common n c = take n (ranked c)

-- `evt.get(key, 'unknown')`
abbrev pub field_of : String → Event → String
field_of k e = lookup_or (lookup e k) "unknown"

-- the sources of one attack, without repetition
unfoldable pub sources_of : String → List Event → List String
unfolding insert_once
sources_of attack [] = []
sources_of attack (e ∷ es) =
    let rest = sources_of attack es in
    if field_of "attack" e === attack then insert_once (field_of "src" e) rest else rest

unfoldable pub attacks_of : List Event → List String
unfolding insert_once
attacks_of [] = []
attacks_of (e ∷ es) = insert_once (field_of "attack" e) (attacks_of es)

pub record Summary : Type 0 where
  pub window_minutes : ℕ
  pub events_total : ℕ
  pub top_n : ℕ
  pub by_attack : Counter
  pub by_source : Counter
  pub by_port : Counter
  pub by_severity : Counter
  pub by_module : Counter
  pub by_chain : Counter
  pub by_action : Counter
  pub unique_sources_by_attack : Counter

unfoldable pub summarize_events : ℕ → ℕ → List Event → Summary
unfolding tally_into most_common sources_of attacks_of lookup
summarize_events window top_n events = record {
  window_minutes = window;
  events_total = length events;
  top_n = top_n;
  by_attack = most_common top_n (tally (field_of "attack") events);
  by_source = most_common top_n (tally (field_of "src") events);
  by_port = most_common top_n (tally (field_of "dpt") events);
  by_severity = most_common top_n (tally (field_of "severity") events);
  by_module = most_common top_n (tally (field_of "module") events);
  by_chain = most_common top_n (tally (field_of "chain") events);
  by_action = most_common top_n (tally (field_of "action") events);
  unique_sources_by_attack =
      map (λ attack. (attack, length (sources_of attack events))) (attacks_of events);
}

-- A line of the text: words, a number after words, or a name with its count.
pub data TextLine : Type 0 where
  words : String → TextLine
  number : String → ℕ → TextLine
  entry : String → ℕ → TextLine

unfoldable pub entries_of : Counter → List TextLine
entries_of [] = []
entries_of ((name, count) ∷ c) = entry name count ∷ entries_of c

abbrev pub items_of : Counter → List TextLine
items_of [] = words "- none" ∷ []
items_of (x ∷ c) = entries_of (x ∷ c)

abbrev pub section : String → Counter → List TextLine → List TextLine
section title c rest = words title ∷ (items_of c ++ (words "" ∷ rest))

unfoldable pub render_text : Summary → List TextLine
unfolding entries_of
render_text s =
    words "Firewall Log Summary"
    ∷ number "Window minutes: " s.window_minutes
    ∷ number "Events total: " s.events_total
    ∷ words ""
    ∷ section "[Top attacks]" s.by_attack (
        section "[Top sources]" s.by_source (
          section "[Top destination ports]" s.by_port (
            section "[By severity]" s.by_severity (
              section "[By module]" s.by_module (
                section "[By chain]" s.by_chain (
                  section "[By action]" s.by_action
                    (section "[Unique sources by attack]" s.unique_sources_by_attack [])))))))

-- One line of the log: what is found in it, and its time in seconds.
pub record LogLine : Type 0 where
  pub found : Option Found
  pub time : Option ℕ

-- `ts is None or ts < min_dt` refuses a line; without a window no time is read
abbrev pub is_recent : ℕ → ℕ → Option ℕ → Bool
is_recent window now time =
    if window == 0 then true else elim time [ none ↦ false | some t ↦ leb now (t + window * 60) ]

abbrev pub keep_event : Option Event → Bool → List Event → List Event
keep_event (some e) true rest = e ∷ rest
keep_event _ _ rest = rest

-- the loop of `load_events` on a file that can be read
unfoldable pub load_events : ℕ → ℕ → List LogLine → List Event
unfolding parse_fw_evt
load_events window now [] = []
load_events window now (l ∷ ls) =
    keep_event (parse_fw_evt l.found) (is_recent window now l.time) (load_events window now ls)

-- What `run_once` writes: the summary, and the count of cycles in a row without an event.
pub record Cycle : Type 0 where
  pub summary : Summary
  pub consecutive_empty_cycles : ℕ

unfoldable pub run_once : ℕ → ℕ → ℕ → ℕ → List LogLine → Cycle
unfolding load_events summarize_events
run_once window top_n previous now log =
    let summary = summarize_events window top_n (load_events window now log) in
    record {
      summary = summary;
      consecutive_empty_cycles = (if summary.events_total == 0 then previous + 1 else 0);
    }
