-- ===== src/Migrate/Print.antt =====
-- Printing migrations: internal/pgstore/pgmigrate/printer.go.
use Prim.Native.Char.{code}
use Prim.Native.String.{String, [], ◌∷◌}
use Prim.Native.String.{◌++◌ as str_append}
use protostate.Common.{Bool, true, false, List, [], ◌∷◌, ◌==◌, if◌then◌else◌}

-- MigrationItem: what its two methods return; none of the two implementations fails.
pub record MigrationItem : Type 0 where
  pub to_sql : String
  pub down_sql : String

pub record Printer : Type 0 where
  pub buf : String
  pub gap : Bool

abbrev pub new_printer : Printer
new_printer = record { buf = ""; gap = false }

abbrev pub set_gap : Printer → Printer
set_gap p = record p { gap = true }

-- Fprintln of nothing, if there is a gap to leave, and of the element.
unfoldable pub print : String → Printer → Printer
print elem p =
    let gap_line = if p.gap then "\n" else "" in
    record { buf = str_append p.buf (str_append gap_line (str_append elem "\n")); gap = false }

-- `len(strings.Split(s, "\n")) > 1`
unfoldable pub has_newline : String → Bool
has_newline [] = false
has_newline (c ∷ s) = let rest = has_newline s in if code c == b'\n' then true else rest

unfoldable pub print_up : List MigrationItem → Printer → Printer
unfolding print
print_up [] p = p
print_up (item ∷ items) p = print_up items (set_gap (print item.to_sql p))

-- The second loop, from the last item to the first.
unfoldable pub print_down : List MigrationItem → Printer → Printer
unfolding print has_newline
print_down [] p = p
print_down (item ∷ items) p =
    let later = print_down items p in
    if has_newline item.down_sql
    then set_gap (print item.down_sql (set_gap later))
    else print item.down_sql later

unfoldable pub print_migrations : List MigrationItem → String
unfolding print_up print_down
print_migrations items =
    (print_down items (
      set_gap
        (print "-- +goose Down" (print_up items (set_gap (print "-- +goose Up" new_printer)))))).buf
