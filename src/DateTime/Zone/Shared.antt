-- ===== src/DateTime/Zone/Shared.antt =====
-- The table of zones under interleaved calls.
use mathlib.Core.Path.{subst}
use go_toml.Prelude.{
  ℕ, ◌+◌, ◌*◌, ◌≤◌, ◌≡◌, ◌⊎◌, inl, inr, refl, sym, ap, ◌∙◌, ℤ, pos, Option, some, [], ◌∷◌, ◌++◌,
  arith, Bytes, ◌==◌, if◌then◌else◌, ok, Option-cases,
}
use go_toml.DateTime.Fields.{pair, pair-parse_fixed_digits}
use go_toml.DateTime.Parse.{parse_fixed_digits}
use go_toml.DateTime.Zone.{
  Location, utc, fixed_zone, ZoneCache, zone_sign, store, Others, negate, swap_zone,
  fixed_offset_zone, parse_zone,
}

-- The text of an offset, and the zone that it names.
abbrev pub offset_text : ℕ → ℕ → ℕ → Bytes
offset_text sign h m = (if sign == 1 then b'-' else b'+') ∷ (pair h ++ b':' ∷ pair m)

abbrev pub offset_zone : ℕ → ℕ → ℕ → Location
offset_zone sign h m =
    let total = h * 3600 + m * 60 in
    fixed_zone (offset_text sign h m) (if sign == 1 then negate total else pos total)

-- Every slot that is set holds the zone of its own offset.
abbrev pub IsGood : ZoneCache → Type 0
IsGood cache = (s h m : ℕ) (loc : Location) → cache s h m ≡ some loc → loc ≡ offset_zone s h m

-- Other goroutines run the same code: they fill slots with the zones of their offsets, and empty
-- none.
abbrev pub IsFair : (ZoneCache → ZoneCache) → Type 0
IsFair f =
    (cache : ZoneCache)
    → IsGood cache
    → IsGood (f cache)
      × ((s h m : ℕ) (loc : Location) → cache s h m ≡ some loc → f cache s h m ≡ some loc)

pub record AreFair (others : Others) : Type 0 where
  pub before : IsFair others.before_swap
  pub after : IsFair others.after_swap

store_cases :
    (cache : ZoneCache) (s h m s' h' m' : ℕ) (loc l : Location)
    → store cache s h m loc s' h' m' ≡ some l
    → ((s' ≡ s) × (h' ≡ h) × (m' ≡ m) × (loc ≡ l)) ⊎ (cache s' h' m' ≡ some l)
unfolding store
store_cases cache s h m s' h' m' loc l e = ground arith

store-IsGood :
    (cache : ZoneCache) (s h m : ℕ) → IsGood cache → IsGood (store cache s h m (offset_zone s h m))
store-IsGood cache s h m good s' h' m' loc e =
    elim (store_cases cache s h m s' h' m' (offset_zone s h m) loc e) [
      | inl (es, eh, em, el) ↦ sym el ∙ rw (es, eh, em)
      | inr kept ↦ good s' h' m' loc kept
    ]

-- What a call of `fixedOffsetZone` gives, whatever other goroutines do meanwhile.
abbrev Gives : Option Location × ZoneCache → Location → Type 0
Gives r loc = (r.0 ≡ some loc) × IsGood r.1

module _ (others : Others) (fair : AreFair others) (cache : ZoneCache) (good : IsGood cache)
    (s h m : ℕ) where
  swap_zone-Gives : Gives (swap_zone others cache s h m (offset_zone s h m)) (offset_zone s h m)
  unfolding swap_zone
  swap_zone-Gives = elim (Option-cases (cache s h m)) [
    | inl empty ↦ rw (empty, swap_zone) (refl, store-IsGood cache s h m good)
    | inr (taken, e) ↦
        let (good', keeps) = fair.after cache good in
        rw (e, swap_zone) (keeps s h m taken e ∙ ap some (good s h m taken e), good')
  ]

fixed_offset_zone-Gives :
    (others : Others) (cache : ZoneCache) (h m : ℕ) (raw : Bytes) (seconds : ℤ)
    → AreFair others
    → IsGood cache
    → fixed_zone raw seconds ≡ offset_zone (zone_sign raw) h m
    → Gives (fixed_offset_zone others cache raw seconds h m) (offset_zone (zone_sign raw) h m)
unfolding fixed_offset_zone
fixed_offset_zone-Gives others cache h m raw seconds fair good zone =
    let s = zone_sign raw in
    elim (Option-cases (cache s h m)) [
      | inl empty ↦
          rw (empty, fixed_offset_zone, zone)
            (swap_zone-Gives others fair (others.before_swap cache) (fair.before cache good).0 s h
              m)
      | inr (loc, e) ↦ rw (e, fixed_offset_zone) (ap some (good s h m loc e), good)
    ]

-- `raw` is `Z`, `z` or an offset, and `loc` is the zone that it names.
pub data Names : Bytes → Location → Type 0 where
  z : {raw : Bytes} → (raw ≡ b'Z' ∷ []) ⊎ (raw ≡ b'z' ∷ []) → Names raw utc
  offset :
      {raw : Bytes} (s h m : ℕ)
      → s ≤ 1
      → h ≤ 23
      → m ≤ 59
      → raw ≡ offset_text s h m
      → Names raw (offset_zone s h m)

abbrev NamesGood : Bytes → Option Location → ZoneCache → Type 0
NamesGood raw loc cache = ((l : Location) × (loc ≡ some l) × Names raw l) × IsGood cache

-- The tests that an offset passes, and the call that follows them.
record Passes (others : Others) (cache cache' : ZoneCache) (a d h m : ℕ) (raw : Bytes)
    (loc : Option Location) : Type 0 where
  sign : a ≡ (if zone_sign (a ∷ []) == 1 then b'-' else b'+')
  sign_le : zone_sign (a ∷ []) ≤ 1
  colon : d ≡ b':'
  hour_le : h ≤ 23
  minute_le : m ≤ 59
  call :
      fixed_offset_zone others cache raw
        (if zone_sign (a ∷ []) == 1 then negate (h * 3600 + m * 60) else pos (h * 3600 + m * 60))
        h
        m
      ≡ (loc, cache')

Passes-NamesGood :
    (others : Others) (cache cache' : ZoneCache) (a b c d f g h m : ℕ) (loc : Option Location)
    → AreFair others
    → IsGood cache
    → b ∷ c ∷ [] ≡ pair h
    → f ∷ g ∷ [] ≡ pair m
    → Passes others cache cache' a d h m (a ∷ b ∷ c ∷ d ∷ f ∷ g ∷ []) loc
    → NamesGood (a ∷ b ∷ c ∷ d ∷ f ∷ g ∷ []) loc cache'
Passes-NamesGood others cache cache' a b c d f g h m loc fair good hours minutes p =
    let raw : Bytes = a ∷ b ∷ c ∷ d ∷ f ∷ g ∷ [] in
    let s = zone_sign raw in
    let text : raw ≡ offset_text s h m =
      ap (λ (x : ℕ). x ∷ b ∷ c ∷ d ∷ f ∷ g ∷ []) p.sign
      ∙ ap (λ (x : Bytes). (if s == 1 then b'-' else b'+') ∷ (x ++ d ∷ f ∷ g ∷ [])) hours
      ∙ ap (λ (x : ℕ). (if s == 1 then b'-' else b'+') ∷ (pair h ++ x ∷ f ∷ g ∷ [])) p.colon
      ∙ ap (λ (x : Bytes). (if s == 1 then b'-' else b'+') ∷ (pair h ++ b':' ∷ x)) minutes in
    let seconds = if s == 1 then negate (h * 3600 + m * 60) else pos (h * 3600 + m * 60) in
    let (given, good') =
      fixed_offset_zone-Gives others cache h m raw seconds fair good
        (ap (λ x. fixed_zone x seconds) text) in
    (
      (
        offset_zone s h m,
        ap (λ r. r.0) (sym p.call) ∙ given,
        offset s h m p.sign_le p.hour_le p.minute_le text,
      ),
      subst IsGood (ap (λ r. r.1) p.call) good',
    )

-- Calls that read offsets share one table. Whatever other goroutines do to it between the atomic
-- operations of a call, if they keep what every call keeps, then a call that accepts its text
-- answers with the zone that the text names, of a sign and of less than a day, and never with a
-- null pointer; and every slot of the table holds the zone of its own offset again.
pub parse_zone-Names :
    (others : Others) (cache cache' : ZoneCache) (raw : Bytes) (loc : Option Location)
    → AreFair others
    → IsGood cache
    → parse_zone others cache raw ≡ ok (loc, cache')
    → ((l : Location) × (loc ≡ some l) × Names raw l) × IsGood cache'
unfolding parse_zone
parse_zone-Names others cache cache' (a ∷ []) loc fair good e =
    let read : (some utc ≡ loc) × (cache ≡ cache') × ((a ∷ [] ≡ b'Z' ∷ []) ⊎ (a ∷ [] ≡ b'z' ∷ [])) =
      ground arith in
    ((utc, sym read.0, z read.2), subst IsGood read.1 good)
parse_zone-Names others cache cache' (a ∷ b ∷ c ∷ d ∷ f ∷ g ∷ []) loc fair good e =
    elim (Option-cases (parse_fixed_digits (b ∷ c ∷ []))) [
      | inl no_hour ↦ ground arith
      | inr (h, hours) ↦ elim (Option-cases (parse_fixed_digits (f ∷ g ∷ []))) [
        | inl no_minute ↦ ground arith
        | inr (m, minutes) ↦
            Passes-NamesGood others cache cache' a b c d f g h m loc fair good
              (pair-parse_fixed_digits b c h hours).1 (pair-parse_fixed_digits f g m minutes).1
              (ground arith)
      ]
    ]
parse_zone-Names others cache cache' _ loc fair good e = ground arith
