-- ===== src/Formats/Shape.antt =====
-- packages/eta-core/src/eta-formats.ts: a time that is formatted passes the test of its format.
use einvoice.Prelude.{
  ℕ, ◌≡◌, refl, Bool, true, false, not, ◌&&◌, some, [], ◌∷◌, ◌++◌, Text, lit, ok, ◌==◌, arith, all,
  and_parts,
}
use einvoice.Formats.{
  Dates, fits_pattern, matches, is_valid_eta_date_time_issued, strip_milliseconds,
  format_eta_date_time_issued,
}

-- The texts of `toISOString` for the years 0 to 9999.
abbrev pub iso_pattern : Text
iso_pattern = lit "dddd-dd-ddTdd:dd:dd" ++ lit ".dddZ"

abbrev no_point : Text → Bool
no_point ps = all (λ p. not (p == b'.')) ps

strip_milliseconds-at : (s : Text) → matches (lit ".dddZ") s ≡ true → strip_milliseconds s ≡ lit "Z"
unfolding matches strip_milliseconds
strip_milliseconds-at [] m = cc
strip_milliseconds-at (c ∷ s) m = ground arith

strip_milliseconds-before :
    (c : ℕ) (s : Text) → (c == b'.') ≡ false → strip_milliseconds (c ∷ s) ≡ c ∷ strip_milliseconds s
unfolding strip_milliseconds matches
strip_milliseconds-before c s e = ground arith

fits_pattern-no_point :
    (p c : ℕ) → not (p == b'.') ≡ true → fits_pattern p c ≡ true → (c == b'.') ≡ false
fits_pattern-no_point p c h f = ground arith

matches-cons :
    (p c : ℕ) (ps s : Text) → matches (p ∷ ps) (c ∷ s) ≡ (fits_pattern p c && matches ps s)
unfolding matches
matches-cons p c ps s = refl

z_matches : matches (lit "Z") (lit "Z") ≡ true
unfolding matches
z_matches = refl

matches-empty : (p : ℕ) (ps : Text) → matches (p ∷ ps) [] ≡ false
unfolding matches
matches-empty p ps = refl

matches-strip_milliseconds :
    (ps s : Text)
    → no_point ps ≡ true
    → matches (ps ++ lit ".dddZ") s ≡ true
    → matches (ps ++ lit "Z") (strip_milliseconds s) ≡ true
matches-strip_milliseconds [] s h m = rw (strip_milliseconds-at s m) z_matches
matches-strip_milliseconds (p ∷ ps) [] h m = let e = matches-empty p (ps ++ lit ".dddZ") in cc
matches-strip_milliseconds (p ∷ ps) (c ∷ s) h m =
    let (kept, others) = and_parts (not (p == b'.')) (no_point ps) h in
    let (first, rest) =
      and_parts (fits_pattern p c) (matches (ps ++ lit ".dddZ") s)
        (rw (← matches-cons p c (ps ++ lit ".dddZ") s) m) in
    rw (strip_milliseconds-before c s (fits_pattern-no_point p c kept first)) (
      rw (matches-cons p c (ps ++ lit "Z") (strip_milliseconds s))
        (rw (first, matches-strip_milliseconds ps s others rest) refl))

-- A text that `toISOString` prints with a year of four digits is formatted, without an error, to a
-- text that `isValidEtaDateTimeIssued` accepts.
pub format_eta_date_time_issued-valid :
    ⦃d : Dates⦄ (input iso : Text)
    → d.to_iso input ≡ some iso
    → matches iso_pattern iso ≡ true
    → (out : Text) × (format_eta_date_time_issued input ≡ ok out)
      × (is_valid_eta_date_time_issued out ≡ true)
unfolding format_eta_date_time_issued is_valid_eta_date_time_issued
format_eta_date_time_issued-valid input iso e m = (
  strip_milliseconds iso,
  rw (e, format_eta_date_time_issued) refl,
  matches-strip_milliseconds (lit "dddd-dd-ddTdd:dd:dd") iso refl m,
)
