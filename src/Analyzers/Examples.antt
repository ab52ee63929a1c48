-- ===== src/Analyzers/Examples.antt =====
-- The default bands, on scores in hundredths.
use os_scanner.Prelude.{◌≤◌, ◌<◌, ◌≡◌, ◌↔◌, refl, ok}
use os_scanner.Analyzers.Risk.{medium, RiskConfiguration, validate_bands, level_for_score}
use os_scanner.Analyzers.Bands.{band_start, band_end, level_for_score-band}

abbrev defaults : RiskConfiguration
defaults = record {
  healthy_minimum = 8500;
  low_minimum = 7000;
  medium_minimum = 5000;
  high_minimum = 3000;
}

defaults_valid : validate_bands 10000 defaults ≡ ok defaults
unfolding validate_bands
defaults_valid = refl

level_for_score-band_example :
    (level_for_score 10000 defaults 6999 ≡ ok medium)
    ↔ ((band_start defaults medium ≤ 6999) × (6999 < band_end 10000 defaults medium))
level_for_score-band_example =
    level_for_score-band 10000 defaults defaults defaults_valid 6999 medium
