-- ===== src/Analyzers/Risk.antt =====
-- The risk bands of app/analyzers/risk.py. A float is an exact number of units, `hundred` of which are
-- the score 100, so the comparisons are those of the code. Of RiskConfiguration, the four minimums.
use os_scanner.Prelude.{ℕ, ◌&&◌, ltb, leb, if◌then◌else◌, Result, ok, value_error, guard, ◌>>◌}

pub data RiskLevel : Type 0 where
  healthy low medium high critical : RiskLevel

pub record RiskConfiguration : Type 0 where
  pub healthy_minimum : ℕ
  pub low_minimum : ℕ
  pub medium_minimum : ℕ
  pub high_minimum : ℕ

module _ (hundred : ℕ) where
  unfoldable pub validate_bands : RiskConfiguration → Result RiskConfiguration
  validate_bands c =
      guard
        (leb c.healthy_minimum hundred
          && ltb c.low_minimum c.healthy_minimum
          && ltb c.medium_minimum c.low_minimum
          && ltb c.high_minimum c.medium_minimum)
        value_error
      >> ok c

  unfoldable pub level_for_score : RiskConfiguration → ℕ → Result RiskLevel
  level_for_score c score =
      guard (leb score hundred) value_error
      >> ok (
          if leb c.healthy_minimum score
          then healthy
          else if leb c.low_minimum score
          then low
          else if leb c.medium_minimum score
          then medium
          else if leb c.high_minimum score
          then high
          else critical)
