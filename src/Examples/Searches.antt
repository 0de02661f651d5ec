-- ===== src/Examples/Searches.antt =====
-- Examples of the search annotations of a message.
use mathlib.Core.List.{Memᴰ}
use protostate.Common.{ℕ, String, ◌≡◌, refl, true, false, none, lookup, some, [], ◌∷◌, ok}
use protostate.Proto.{
  FieldInfo, MessageInfo, message, Fields, no_fields, scalar, nested, string_rules, open_text,
  string_kind,
}
use protostate.Pquery.Identifiers.{Ids, Entry, validate_message, entries}
use protostate.Pquery.Identifiers.Used.{Has, Uses}
use protostate.Pquery.Identifiers.Nested.{here, inside, after_scalar, validate_message_complete}
use protostate.Pquery.Identifiers.Unique.{validate_message_collects, validate_message_apart}

-- A text field of the oneof with index 0.
abbrev branch : String → FieldInfo
branch name = record {
  name = name;
  json_name = name;
  is_list = false;
  is_map = false;
  containing_oneof = some 0;
  constraint = some (
      string_rules
        (open_text (some (record { searchable = true; field_identifier = "tsv_note" }))));
}

abbrev notes : Fields
notes = scalar (branch "short") string_kind (scalar (branch "long") string_kind no_fields)

abbrev note_info : MessageInfo
note_info = record { full_name = "shop.Note"; oneofs = [] }

abbrev note_ids : Ids
note_ids = ("tsv_note", "long") ∷ []

abbrev added_by : String → Entry
added_by name = record { oneof = some 0; own = ok (("tsv_note", name) ∷ []) }

notes_accepted : validate_message (message note_info notes) ≡ ok note_ids
unfolding validate_message
notes_accepted = refl

notes-entries : entries notes ≡ added_by "short" ∷ added_by "long" ∷ []
unfolding entries
notes-entries = refl

short-Uses : Uses (added_by "short") "tsv_note"
unfolding lookup
short-Uses = (_, refl, (_, refl))

long-Uses : Uses (added_by "long") "tsv_note"
unfolding lookup
long-Uses = (_, refl, (_, refl))

short_in : Memᴰ (added_by "short") (entries notes)
unfolding entries
short_in = Memᴰ.head refl

validate_message_collects_example : Has "tsv_note" note_ids
validate_message_collects_example =
    validate_message_collects note_info notes (added_by "short") "tsv_note" notes_accepted short_in
      short-Uses

validate_message_apart_example :
    (o : ℕ) × ((added_by "short").oneof ≡ some o) × ((added_by "long").oneof ≡ some o)
validate_message_apart_example =
    validate_message_apart note_info notes "tsv_note" [] (added_by "short") (added_by "long")
      (added_by "long" ∷ []) notes_accepted notes-entries (Memᴰ.head refl) short-Uses long-Uses

-- A message that holds the notes.
abbrev holder : Fields
holder =
    nested (record (branch "note") { containing_oneof = none; constraint = none }) false
      (message note_info notes) no_fields

holder_ids : validate_message (message note_info holder) ≡ ok (("tsv_note", "note.long") ∷ [])
unfolding validate_message
holder_ids = refl

validate_message_complete_example : Has "tsv_note" (("tsv_note", "note.long") ∷ [])
validate_message_complete_example =
    validate_message_complete "tsv_note" note_info holder holder_ids
      (inside (after_scalar (here refl refl refl)))
