-- ===== src/Values/Readers.antt =====
-- value.go, decoder.go: the parts of value.go that the scanners of a decoder call.
use go_toml.Prelude.{ℕ, Bytes, Result, ok, err, Bool, true, false, Option}
use go_toml.Decoder.State.{Readers}
use go_toml.DateTime.Value.{parse_date_time_value}
use go_toml.DateTime.Zone.{Others, ZoneCache}
use go_toml.Values.Strings.{validate_string_value}
use go_toml.Values.Keys.{parse_dotted_key}
use go_toml.Values.Classify.{Outside, classify_bare_value}

abbrev pub is_ok {ℓ κ} : {E : Type ℓ} {A : Type κ} → Result E A → Bool
is_ok (ok a) = true
is_ok (err e) = false

-- The dates and times of the program, read with some table of zones.
abbrev pub program_outside : Others → ZoneCache → (Bytes → Option ℕ) → Outside
program_outside others cache parse_float = record {
  is_date_time_value = λ raw. is_ok (parse_date_time_value others cache raw);
  parse_float = parse_float;
}

abbrev pub value_readers : Outside → Readers
value_readers outside = record {
  validate_string_value = validate_string_value;
  parse_dotted_key = parse_dotted_key;
  is_date_time = outside.is_date_time_value;
  classify_bare_value = classify_bare_value outside;
}
