-- ===== src/Location.antt =====
-- Source locations: `Location` of src/location.h and src/location.cpp. The pointer to the text is
-- not kept here.
use kcc.Prelude.{ℕ, ◌+◌, ◌-◌, [], Option, none, some, Bytes, if◌then◌else◌, ltb}

pub record Location : Type 0 where
  pub file_name : Bytes
  pub line_begin : ℕ
  pub row : ℕ
  pub column : ℕ
  pub line_begin_backup : ℕ
  pub column_backup : ℕ

abbrev pub initial_location : Location
initial_location = record {
  file_name = [];
  line_begin = 0;
  row = 1;
  column = 1;
  line_begin_backup = 0;
  column_backup = 0;
}

abbrev pub next_column : Location → Location
next_column l = record l { column = l.column + 1 }

-- `Location::NextRow`. The backup is taken from the argument, not from the field `line_begin`.
abbrev pub next_row : ℕ → Location → Location
next_row begin l = record l {
  line_begin_backup = begin;
  column_backup = l.column;
  line_begin = begin;
  row = l.row + 1;
  column = 1;
}

-- `Location::PrevRow`; `none` is its failed assertion.
abbrev pub prev_row : Location → Option Location
prev_row l =
    if ltb 1 l.row
    then some
        (record l { line_begin = l.line_begin_backup; column = l.column_backup; row = l.row - 1 })
    else none

abbrev pub prev_column : Location → Option Location
prev_column l = if ltb 1 l.column then some (record l { column = l.column - 1 }) else none

abbrev pub set_row : ℕ → Location → Location
set_row row l = record l { row = row }

abbrev pub set_file_name : Bytes → Location → Location
set_file_name name l = record l { file_name = name }
