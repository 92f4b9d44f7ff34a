-- ===== src/Lib.antt =====
-- A model of go-toml, a TOML library in Go: its token stream, its kernels over bytes, its dates
-- and times, the values that it reads, the strings and keys that it prints, and edits of a document.
--
-- The program's parts. A text is read by a `Decoder` (decoder.go), which checks it, skips a byte order
-- mark and then hands out one token for each call of `ReadToken`. Its scanners look for the byte at
-- which a key, a string, a comment or a bare value ends; for that they call the kernels of
-- internal/scan. They check strings, keys and numbers by functions of value.go, and dates and times by
-- those of datetime_parse.go. The whole-document calls (unmarshal.go, unmarshal_direct.go, document.go)
-- read such tokens; marshal.go and datetime.go print values.
--
-- The modules.
--   Prelude    names of the standard library passed on, and what stands for Go's own types and
--              libraries: slices as lists with a length and positions over the native numbers (Lists,
--              Ends), `int` (Int), results with an error (Fallible), `strconv` and padded decimals
--              (Decimal), `bytes.Equal` (Equal), the digits of words (Bitwise), loops on fuel (Loop),
--              slices of slices (Slices), maps (Maps), `unicode/utf8` (Utf8) and
--              `bytes.TrimSpace` (Space).
--   Scan       internal/scan/strict.go. Scan.Word is the tests on words of internal/scan/scan_swar.go,
--              `hasZero`, `hasByteEq`, `hasByteLessThan` and `loadu64`; below it, Bytewise and Marks say
--              what a word operation does to each byte, Tests which bytes each test marks, and First
--              that the lowest mark is the first byte it is after. Scan.Kernels is the kernels, with
--              the loops `for_words` and `for_bytes` that they share; Exact, First and Lines compare
--              them with loops over single bytes. Scan.Sequences is `validateUTF8Scalar` of the other
--              backends (internal/scan/scan_arm64.go), with which Scan.Kernels.Valid compares
--              `validateUTF8SWAR`.
--   Decoder    decoder.go, token.go and errors.go. Stack is `pushContainer`, `popContainer` and
--              `innermostIsArray`; Position is `lineColForOffset`; Options is the caps and the options;
--              State is the decoder's fields, its tokens and errors; Spaces is `skipSpaces`; Strings is
--              `scanQuoted` and `scanString`; Keys is comments, keys and headers; Values is value
--              tokens and brackets; Read is `readToken` and `initDecoderBytes`. Steady, Kept and Turns
--              follow the flags from call to call; Ends, StringEnds and KeyEnds follow the loops over
--              strings, headers and keys, and Mark is about the byte order mark.
--   DateTime   datetime.go and datetime_parse.go. Calendar is the checks; Print is `MarshalText`; Parse
--              is the readers of the local forms; Zone is the offsets and the table of zones that calls
--              share; Value is offset date-times and the choice by shape. Fields, Dates, Fraction,
--              Times, RoundTrip, Joined, Zone.Shared, Value.Shapes and Value.Dispatch are about them.
--
--   Values     value.go below the scanners. Strings is `stringValueBody`, `parseStringValue`
--              with the escapes, and `validateStringValue`; Keys is `parseDottedKey`; Numbers is the
--              checks of number literals and `parseIntegerLiteral`; Classify is `classifyBareValue`;
--              Readers puts them together as what the decoder is given. Fast, Advances, Ends, Runs,
--              Steps, Digits, Range, Prefixes, Decimals and Integers are about them.
--   Marshal    the printing of strings, keys and headers in marshal.go. Quote is the definitions;
--              Reads, Fast, Printable, Bodies, RoundTrip, Paths and Headers are about reading back what
--              they print.
--   Document   document.go: `Get`, `Set`, `InsertAfter`, `Delete` and what they keep of a document. Format
--              is `formatStringLike` and `literalStringSafe`; Splice is `Bytes`, with the edits it
--              makes of entries and insertions, their sort and the loop over them; LineSpan is
--              `lineSpan`. Ordered, Edited, Lines and Whole are about `Bytes`, Paths about `Get`,
--              Reached about sequences of calls, and Literal about `formatStringLike`.
--
-- How code becomes definitions. A method on `*Decoder` is a function of the decoder's state. A scanner
-- answers with an `Outcome`: what it hands to its caller, and the state behind it. A part of a scanner
-- that changes nothing but `d.err` answers with a `Failure` instead, which says whether the error is
-- recorded in the decoder (`syntaxError`, `setErr`) or only returned, as the errors of
-- `validateStringValue` are. The body of a loop is a function from a state to a result or to another
-- state, and Prelude.Loop runs it. A kernel is the one of the word backend, which every build without
-- vector instructions uses; a word is a number below 2 ^ 64, its lowest byte first.
--
-- Fuel. `for_words` has fuel for every byte and adds eight to its index at each turn; it never gives
-- a wrong answer with less, since it then goes on with single bytes. The loop of `readToken` has one
-- turn more than there are bytes, and each turn that goes on leaves fewer bytes. The loops of
-- `scanQuoted`, `scanString`, `scanHeaderEnd`, `validateHeaderKey` and of a key have the same fuel; if
-- it were used up, they would answer with the error `no_fuel`, which the code does not have. The
-- loops over a string's body, over the parts of a dotted key and over the text to quote have one turn
-- more than there are bytes, and each turn consumes one or more.
--
-- What is a parameter. `Readers` is the part of value.go that the scanners call; the theorems on the
-- token stream hold for all such functions, and Values.Readers gives the functions of the code. Of
-- those, `Outside` is `strconv.ParseFloat`, by its error only. `Host` is the Go values that a document
-- is given: how one is printed and read again, and its kind. Other goroutines that share the table of
-- zones are functions on that table, `Others`. `time.Location` and `time.Time` are the arguments that
-- they are made from.
--
-- What is not modelled. The vector kernels in assembly, which promise what the word kernels do;
-- of value.go the values of arrays, inline tables and floats, the rules on tables and the skipper of
-- values; `ParseDocument`, so a document starts with its entries and their spans; binding and printing
-- Go values (unmarshal.go, unmarshal_direct.go, marshal.go and internal/reflectcache), which go by
-- reflection; and the command line tools below internal/cmd. Slices are values here: nothing that is modelled writes to one that it
-- was given, and no theorem speaks of the aliases that `Token.Bytes` keeps. A map is a list of its
-- pairs. No document is nil.
pub mod Prelude
pub mod DateTime
pub mod Scan
pub mod Decoder
pub mod Values
pub mod Marshal
pub mod Document
