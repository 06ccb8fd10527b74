-- ===== src/Builder/Tests.antt =====
-- The theorems on packages/eta-core/src/eta-formats.ts at concrete inputs.
use einvoice.Prelude.{◌≡◌, refl, true, lit, Text, ok}
use einvoice.Formats.{matches, format_eta_date_time_issued, is_valid_eta_date_time_issued}
use einvoice.Formats.Shape.{iso_pattern, format_eta_date_time_issued-valid}
use einvoice.Builder.Sample.{one_time}

iso_run : matches iso_pattern (lit "2026-07-31T09:16:00.000Z") ≡ true
unfolding matches
iso_run = refl

format_eta_date_time_issued-valid_example :
    (out : Text) × (format_eta_date_time_issued (lit "2026-07-31") ≡ ok out)
    × (is_valid_eta_date_time_issued out ≡ true)
format_eta_date_time_issued-valid_example =
    format_eta_date_time_issued-valid (lit "2026-07-31") (lit "2026-07-31T09:16:00.000Z") refl
      iso_run
