-- ===== src/Ingest.antt =====
-- Error reports before they are stored (internal/service/ingest.go): the caps on their fields, and
-- what of a key may be logged.
pub mod Caps
pub mod Keys
mod Access
mod Revocation
pub mod Issues
pub mod Requests
mod Grouping
mod Writes
mod Histories
mod Retention
mod Examples
mod Reports
use touchgrass.Base.{
  ℕ, zero, suc, ◌-◌, Bool, true, false, not, ◌&&◌, ◌||◌, ◌==◌, ltb, leb, if◌then◌else◌, Text, bytes,
  is_empty, is_blank, has_prefix, List, [], ◌∷◌, length, map,
}
use touchgrass.Base.Ints.{ℤ}
use touchgrass.Base.Results.{invalid_input, Result, ok, err}

abbrev max_message_len : ℕ
max_message_len = 4096

abbrev max_release_len : ℕ
max_release_len = 128

abbrev pub max_field_len : ℕ
max_field_len = 1024

abbrev max_frames : ℕ
max_frames = 100

abbrev max_crumbs : ℕ
max_crumbs = 100

abbrev pub max_issue_title : ℕ
max_issue_title = 200

abbrev pub key_prefix_len : ℕ
key_prefix_len = 11

abbrev is_tail : ℕ → Bool
is_tail c = leb 0x80 c && leb c 0xbf

-- How many bytes a rune takes: 1 for ASCII and for a byte that begins no valid sequence.
unfoldable pub rune_width : Text → ℕ
rune_width (c ∷ d ∷ e ∷ f ∷ s) =
    if leb 0xc2 c && (leb c 0xdf && is_tail d)
    then 2
    else if (c == 0xe0 && leb 0xa0 d || (leb 0xe1 c && leb c 0xef && not (c == 0xed && ltb 0x9f d)))
        && (is_tail d && is_tail e)
    then 3
    else if (c == 0xf0 && leb 0x90 d || (leb 0xf1 c && leb c 0xf3 || c == 0xf4 && leb d 0x8f))
        && (is_tail d && (is_tail e && is_tail f))
    then 4
    else 1
rune_width (c ∷ d ∷ e ∷ []) =
    if leb 0xc2 c && (leb c 0xdf && is_tail d)
    then 2
    else if (c == 0xe0 && leb 0xa0 d || (leb 0xe1 c && leb c 0xef && not (c == 0xed && ltb 0x9f d)))
        && (is_tail d && is_tail e)
    then 3
    else 1
rune_width (c ∷ d ∷ []) = if leb 0xc2 c && (leb c 0xdf && is_tail d) then 2 else 1
rune_width s = 1

-- `for i := range value`: the offsets at which runes begin, from the offset `i` on; `skip` bytes of
-- a rune are still to come.
unfoldable pub rune_starts : (skip i : ℕ) → Text → List ℕ
unfolding rune_width
rune_starts skip i [] = []
rune_starts (suc skip) i (c ∷ s) = rune_starts skip (suc i) s
rune_starts zero i (c ∷ s) = i ∷ rune_starts (rune_width (c ∷ s) - 1) (suc i) s

-- The loop of `truncate`.
unfoldable pub last_cut : (cut maximum : ℕ) → List ℕ → ℕ
last_cut cut maximum [] = cut
last_cut cut maximum (i ∷ rest) = if ltb maximum i then cut else last_cut i maximum rest

unfoldable pub take {ℓ} : {A : Type ℓ} → ℕ → List A → List A
take zero xs = []
take (suc n) [] = []
take (suc n) (x ∷ xs) = x ∷ take n xs

-- `truncate`
unfoldable pub truncate : Text → ℕ → Text
unfolding rune_starts last_cut take
truncate value maximum =
    if leb (length value) maximum
    then value
    else take (last_cut 0 maximum (rune_starts 0 0 value)) value

pub data OccurrenceType : Type 0 where
  exception message : OccurrenceType
  other : Text → OccurrenceType

pub record StackFrame : Type 0 where
  pub function : Text
  pub file : Text
  pub line : ℤ
  pub column : ℤ

pub record Breadcrumb : Type 0 where
  pub at : Text
  pub category : Text
  pub message : Text

pub record IngestReport : Type 0 where
  pub type : OccurrenceType
  pub message : Text
  pub stack : List StackFrame
  pub breadcrumbs : List Breadcrumb
  pub release : Text

pub record Occurrence : Type 0 where
  pub service_id : Text
  pub type : OccurrenceType
  pub message : Text
  pub stack : List StackFrame
  pub breadcrumbs : List Breadcrumb
  pub release : Text

abbrev capped_frame : StackFrame → StackFrame
capped_frame f = record {
  function = truncate f.function max_field_len;
  file = truncate f.file max_field_len;
  line = f.line;
  column = f.column;
}

-- `truncateFrames`
unfoldable pub truncate_frames : List StackFrame → List StackFrame
unfolding truncate take
truncate_frames frames = map capped_frame (take max_frames frames)

abbrev capped_crumb : Breadcrumb → Breadcrumb
capped_crumb c = record {
  at = truncate c.at max_field_len;
  category = truncate c.category max_field_len;
  message = truncate c.message max_field_len;
}

-- `truncateCrumbs`
unfoldable pub truncate_crumbs : List Breadcrumb → List Breadcrumb
unfolding truncate take
truncate_crumbs crumbs = map capped_crumb (take max_crumbs crumbs)

abbrev is_known_type : OccurrenceType → Bool
is_known_type exception = true
is_known_type message = true
is_known_type (other t) = false

-- `buildOccurrence`
unfoldable pub build_occurrence : Text → IngestReport → Result Occurrence
unfolding is_blank truncate truncate_frames truncate_crumbs
build_occurrence service_id report =
    if not (is_known_type report.type)
    then err invalid_input
    else if is_blank report.message
    then err invalid_input
    else ok (record {
      service_id = service_id;
      type = report.type;
      message = truncate report.message max_message_len;
      stack = truncate_frames report.stack;
      breadcrumbs = truncate_crumbs report.breadcrumbs;
      release = truncate report.release max_release_len;
    })

unfoldable pub first_line : Text → Text
first_line [] = []
first_line (c ∷ s) = if c == 10 then [] else c ∷ first_line s

-- `issueTitle`
unfoldable pub issue_title : Text → Text
unfolding first_line truncate is_empty
issue_title m =
    if is_empty (first_line m)
    then truncate m max_issue_title
    else truncate (first_line m) max_issue_title

-- `KeyPrefixForLog`
unfoldable key_prefix_for_log : Text → Text
unfolding has_prefix take
key_prefix_for_log presented =
    if leb key_prefix_len (length presented) && has_prefix presented (bytes "tg_")
    then take key_prefix_len presented
    else bytes "malformed"
