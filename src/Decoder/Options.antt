-- ===== src/Decoder/Options.antt =====
-- decoder.go: the caps of a decoder and the options that set them.
use go_toml.Prelude.{
  ◌*◌, ◌≡◌, refl, ℤ, pos, above, Bool, true, false, List, [], ◌∷◌, ◌++◌, if◌then◌else◌, Bool-cases,
  inl, inr,
}

pub record Limits : Type 0 where
  pub max_nested_depth : ℤ
  pub max_key_length : ℤ
  pub max_string_length : ℤ
  pub max_document_size : ℤ

-- The fields of a decoder that options change.
pub record DecoderSettings : Type 0 where
  pub limits : Limits
  pub local_as_utc : Bool
  pub copy_strings : Bool

abbrev pub default_limits : Limits
default_limits = record {
  max_nested_depth = pos 1024;
  max_key_length = pos (64 * 1024);
  max_string_length = pos (16 * 1048576);
  max_document_size = pos (16 * 1048576);
}

abbrev pub default_settings : DecoderSettings
default_settings = record { limits = default_limits; local_as_utc = false; copy_strings = false }

-- The options that the package exports.
pub data DecoderOption : Type 0 where
  with_limits : Limits → DecoderOption
  with_local_as_utc : DecoderOption
  with_copied_strings : DecoderOption

-- `if l > 0 { d = l }`
abbrev pub override : ℤ → ℤ → ℤ
override l d = if above l 0 then l else d

unfoldable pub apply_option : DecoderOption → DecoderSettings → DecoderSettings
apply_option (with_limits l) d = record d {
  limits = record {
    max_nested_depth = override l.max_nested_depth d.limits.max_nested_depth;
    max_key_length = override l.max_key_length d.limits.max_key_length;
    max_string_length = override l.max_string_length d.limits.max_string_length;
    max_document_size = override l.max_document_size d.limits.max_document_size;
  };
}
apply_option with_local_as_utc d = record d { local_as_utc = true }
apply_option with_copied_strings d = record d { copy_strings = true }

-- `for _, opt := range opts { opt(d) }`
unfoldable pub apply_all : List DecoderOption → DecoderSettings → DecoderSettings
apply_all [] d = d
apply_all (opt ∷ opts) d = apply_all opts (apply_option opt d)

unfoldable pub apply_options : List DecoderOption → DecoderSettings
unfolding apply_all
apply_options opts = apply_all opts default_settings

unfoldable pub resolve_decoder_settings : List DecoderOption → DecoderSettings
unfolding apply_options
resolve_decoder_settings [] = default_settings
resolve_decoder_settings (opt ∷ opts) = apply_options (opt ∷ opts)

unfoldable pub decode_options : DecoderSettings → List DecoderOption
decode_options d =
    (with_limits d.limits ∷ [])
    ++ (if d.local_as_utc then with_local_as_utc ∷ [] else [])
    ++ (if d.copy_strings then with_copied_strings ∷ [] else [])

-- Every cap is positive, so none of them is switched off.
pub record ArePositive (l : Limits) : Type 0 where
  pub nested_depth : above l.max_nested_depth 0 ≡ true
  pub key_length : above l.max_key_length 0 ≡ true
  pub string_length : above l.max_string_length 0 ≡ true
  pub document_size : above l.max_document_size 0 ≡ true

override-above : (l d : ℤ) → above d 0 ≡ true → above (override l d) 0 ≡ true
override-above l d h = elim (Bool-cases (above l 0)) [
  | inl positive ↦ rw positive positive
  | inr other ↦ rw other h
]

apply_option-ArePositive :
    (opt : DecoderOption) (d : DecoderSettings)
    → ArePositive d.limits
    → ArePositive (apply_option opt d).limits
unfolding apply_option
apply_option-ArePositive (with_limits l) d h = record {
  nested_depth = override-above l.max_nested_depth d.limits.max_nested_depth h.nested_depth;
  key_length = override-above l.max_key_length d.limits.max_key_length h.key_length;
  string_length = override-above l.max_string_length d.limits.max_string_length h.string_length;
  document_size = override-above l.max_document_size d.limits.max_document_size h.document_size;
}
apply_option-ArePositive with_local_as_utc d h = h
apply_option-ArePositive with_copied_strings d h = h

apply_all-ArePositive :
    (opts : List DecoderOption) (d : DecoderSettings)
    → ArePositive d.limits
    → ArePositive (apply_all opts d).limits
unfolding apply_all
apply_all-ArePositive [] d h = h
apply_all-ArePositive (opt ∷ opts) d h =
    apply_all-ArePositive opts (apply_option opt d) (apply_option-ArePositive opt d h)

resolve-ArePositive :
    (opts : List DecoderOption) → ArePositive (resolve_decoder_settings opts).limits
unfolding resolve_decoder_settings apply_options
resolve-ArePositive [] = record {
  nested_depth = refl;
  key_length = refl;
  string_length = refl;
  document_size = refl;
}
resolve-ArePositive (opt ∷ opts) =
    apply_all-ArePositive (opt ∷ opts) default_settings (record {
      nested_depth = refl;
      key_length = refl;
      string_length = refl;
      document_size = refl;
    })

resolve_flags :
    (l : Limits) (utc copy : Bool)
    → ArePositive l
    → let d : DecoderSettings = record { limits = l; local_as_utc = utc; copy_strings = copy } in
      resolve_decoder_settings (decode_options d) ≡ d
unfolding resolve_decoder_settings apply_options apply_all apply_option decode_options
resolve_flags l true true h =
    rw (h.nested_depth, h.key_length, h.string_length, h.document_size) refl
resolve_flags l true false h =
    rw (h.nested_depth, h.key_length, h.string_length, h.document_size) refl
resolve_flags l false true h =
    rw (h.nested_depth, h.key_length, h.string_length, h.document_size) refl
resolve_flags l false false h =
    rw (h.nested_depth, h.key_length, h.string_length, h.document_size) refl

-- Whatever options a decoder is built with, each of its caps is positive, and the options that
-- `Decode` hands on to the parse of the whole document give the settings of the decoder again.
pub resolve_decoder_settings-decode_options :
    (opts : List DecoderOption)
    → let d = resolve_decoder_settings opts in
      ArePositive d.limits × (resolve_decoder_settings (decode_options d) ≡ d)
resolve_decoder_settings-decode_options opts =
    let d : DecoderSettings = resolve_decoder_settings opts in
    let h = resolve-ArePositive opts in (h, resolve_flags d.limits d.local_as_utc d.copy_strings h)
