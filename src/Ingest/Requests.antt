-- ===== src/Ingest/Requests.antt =====
-- A report from its key to the stored occurrence (`Ingest` and `sampleLessThan` of
-- internal/service/ingest.go, `Fingerprint` of internal/service/fingerprint.go), and what else
-- changes the issues: notifications and retention. The regular expressions of `templateMessage`
-- are an argument.
use touchgrass.Base.{
  ℕ, Bool, true, false, not, if◌then◌else◌, Text, bytes, List, [], ◌∷◌, ◌++◌, Option, none, some,
}
use touchgrass.Base.Results.{Result, ok, err}
use touchgrass.Ingest.{
  OccurrenceType, exception, message, other, StackFrame, IngestReport, Occurrence, take,
  build_occurrence, issue_title,
}
use touchgrass.Ingest.Keys.{Rates, ApiKey, KeyStore, authenticate_key}
use touchgrass.Ingest.Issues.{
  Grouped, group_occurrence, trim_beyond_cap, trim_occurrences, trim_issues, stamp_notified,
}

abbrev fingerprint_len : ℕ
fingerprint_len = 32

abbrev fingerprint_top : ℕ
fingerprint_top = 3

abbrev type_name : OccurrenceType → Text
type_name exception = bytes "exception"
type_name message = bytes "message"
type_name (other t) = t

-- `strings.Join(parts, "\x00")`
unfoldable pub join_nul : List Text → Text
join_nul [] = []
join_nul (part ∷ []) = part
join_nul (part ∷ next ∷ parts) = part ++ 0 ∷ join_nul (next ∷ parts)

unfoldable pub frame_parts : List StackFrame → List Text
frame_parts [] = []
frame_parts (frame ∷ frames) = frame.function ∷ frame.file ∷ frame_parts frames

-- `Fingerprint`: `hash` is the hexadecimal SHA-256, `template` is `templateMessage`.
unfoldable pub fingerprint :
    (hash template : Text → Text) → Text → OccurrenceType → Text → List StackFrame → Text
unfolding join_nul frame_parts take
fingerprint hash template service type text frames = take fingerprint_len (
    hash (
      join_nul
        (service ∷ type_name type ∷ template text ∷ frame_parts (take fingerprint_top frames))))

-- What an ingestor is built with.
pub record Ingestor (R : Type 0) : Type 0 where
  pub rates : Rates R
  pub hash : Text → Text
  pub template : Text → Text
  pub max_occurrences : ℕ

-- What happens around one report: the moment, what fails, and the random draw.
pub record Circumstances : Type 0 where
  pub now : ℕ
  pub key_fails : Bool
  pub draw : Option ℕ
  pub group_fails : Bool
  pub trim_fails : Bool

pub record Ingested (R : Type 0) : Type 0 where
  pub keys : KeyStore R
  pub grouped : Grouped

-- What changes the issues.
pub data Happening : Type 0 where
  reported : Circumstances → Text → IngestReport → Happening
  quiet_issues_trimmed : ℕ → Happening
  old_occurrences_trimmed : ℕ → Happening
  notified : (now id : ℕ) → Happening

module _ {R : Type 0} (ingestor : Ingestor R) where
  -- `sampleLessThan`, and `Ingest` where it fails: a failing draw keeps the report.
  abbrev pub is_kept : Option ℕ → R → Bool
  is_kept none rate = true
  is_kept (some draw) rate = ingestor.rates.below draw rate

  -- `TrimBeyondCap`, a failure of which is only logged.
  unfoldable pub cap_occurrences : Bool → Text → Grouped → Grouped
  unfolding trim_beyond_cap
  cap_occurrences fails service g =
      if fails
      then g
      else record g { occurrences = trim_beyond_cap service ingestor.max_occurrences g.occurrences }

  -- `Ingest`, once the key is known and the report is well formed.
  unfoldable pub store_occurrence :
      Circumstances → ApiKey R → Occurrence → Grouped → Result Bool × Grouped
  unfolding group_occurrence fingerprint issue_title cap_occurrences
  store_occurrence x key o g =
      let service = key.service_id in
      let print = fingerprint ingestor.hash ingestor.template service o.type o.message o.stack in
      let (r, after) =
        group_occurrence x.group_fails x.now service print (issue_title o.message) o.release o g in
      elim r [
        | err e ↦ (err e, after)
        | ok u ↦ (ok true, cap_occurrences x.trim_fails service after)
      ]

  -- `Ingest`; false is a report that was sampled out.
  unfoldable pub ingest :
      Circumstances → Text → IngestReport → Ingested R → Result Bool × Ingested R
  unfolding authenticate_key build_occurrence store_occurrence
  ingest x presented report s = elim (authenticate_key ingestor.hash x.key_fails presented s.keys) [
    | err e ↦ (err e, s)
    | ok key ↦ elim (build_occurrence key.service_id report) [
      | err e ↦ (err e, s)
      | ok o ↦
          if not (is_kept x.draw key.sample_rate)
          then (ok false, s)
          else let (r, after) = store_occurrence x key o s.grouped in
            (r, record s { grouped = after })
    ]
  ]

  unfoldable pub happen : Happening → Ingested R → Ingested R
  unfolding ingest trim_issues trim_occurrences stamp_notified
  happen (reported x presented report) s = (ingest x presented report s).1
  happen (quiet_issues_trimmed cutoff) s = record s { grouped = trim_issues cutoff s.grouped }
  happen (old_occurrences_trimmed cutoff) s = record s {
    grouped = record s.grouped { occurrences = trim_occurrences cutoff s.grouped.occurrences };
  }
  happen (notified now id) s = record s {
    grouped = record s.grouped { issues = stamp_notified now id s.grouped.issues };
  }

  unfoldable pub happen_all : List Happening → Ingested R → Ingested R
  unfolding happen
  happen_all [] s = s
  happen_all (e ∷ es) s = happen_all es (happen e s)
