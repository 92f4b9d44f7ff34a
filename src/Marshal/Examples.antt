-- ===== src/Marshal/Examples.antt =====
-- Tests of Marshal, and the theorems about it at concrete inputs.
use go_toml.Prelude.{◌≡◌, ◌≢◌, refl, ok, err, true, List, [], ◌∷◌, Bytes, codes, All}
use go_toml.Scan.Word.Bytewise.{AreBytes, all_bytes-AreBytes}
use go_toml.Values.Strings.{parse_string_value}
use go_toml.Values.Keys.{parse_dotted_key, key_path, parse_header_key}
use go_toml.Marshal.Quote.{
  append_basic_string, write_quoted_string, format_key, write_keys, write_header, invalid_utf8,
}
use go_toml.Marshal.Quote.Fast.{write_quoted_string-append_basic_string}
use go_toml.Marshal.Quote.RoundTrip.{parse_string_value-append_basic_string}
use go_toml.Marshal.Quote.Headers.{
  parse_dotted_key-write_keys, key_path-format_key, parse_header_key-write_header,
}

-- A quote, a newline, a letter of two bytes and a control character above them.
abbrev odd : Bytes
odd = b'"' ∷ b'\n' ∷ 0xC3 ∷ 0xA9 ∷ 0xC2 ∷ 0x85 ∷ []

abbrev odd_quoted : Bytes
odd_quoted =
    b'"' ∷ b'\\' ∷ b'"' ∷ b'\\' ∷ b'n' ∷ 0xC3 ∷ 0xA9 ∷ b'\\' ∷ b'u' ∷ b'0' ∷ b'0' ∷ b'8' ∷ b'5'
    ∷ b'"' ∷ []

odd_written : append_basic_string [] odd ≡ ok odd_quoted
unfolding append_basic_string
odd_written = refl

not_utf8 : append_basic_string [] (b'a' ∷ 0xFF ∷ []) ≡ err invalid_utf8
unfolding append_basic_string
not_utf8 = refl

odd_bytes : AreBytes odd
odd_bytes = all_bytes-AreBytes odd refl

parse_string_value-append_basic_string_example : parse_string_value odd_quoted ≡ ok odd
parse_string_value-append_basic_string_example =
    parse_string_value-append_basic_string odd odd_quoted odd_bytes odd_written

write_quoted_string-append_basic_string_example :
    write_quoted_string (codes "a\"b\\") ≡ append_basic_string [] (codes "a\"b\\")
write_quoted_string-append_basic_string_example =
    write_quoted_string-append_basic_string (codes "a\"b\\")
      (all_bytes-AreBytes (codes "a\"b\\") refl)

abbrev path : List Bytes
path = codes "a" ∷ codes "b c" ∷ []

path_bytes : All AreBytes path
path_bytes = (all_bytes-AreBytes (codes "a") refl, (all_bytes-AreBytes (codes "b c") refl, tt))

path_some : path ≢ []
path_some e = cc e

path_written : write_keys [] path ≡ ok (codes "a.\"b c\"")
unfolding write_keys
path_written = refl

path_read_back : parse_dotted_key (codes "a.\"b c\"") ≡ ok path
path_read_back =
    parse_dotted_key-write_keys path (codes "a.\"b c\"") path_some path_bytes path_written

key_written : format_key (codes "b c") ≡ ok (codes "\"b c\"")
unfolding format_key
key_written = refl

key_path-format_key_example : key_path (codes "\"b c\"") ≡ ok (codes "b c" ∷ [])
key_path-format_key_example =
    key_path-format_key (codes "b c") (codes "\"b c\"") (all_bytes-AreBytes (codes "b c") refl)
      key_written

header_written : write_header path true ≡ ok (codes "[[a.\"b c\"]]\n")
unfolding write_header
header_written = refl

parse_header_key-write_header_example : parse_header_key (codes "[[a.\"b c\"]]\n") true ≡ ok path
parse_header_key-write_header_example =
    parse_header_key-write_header path true (codes "[[a.\"b c\"]]\n") path_some path_bytes
      header_written
