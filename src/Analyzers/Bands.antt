-- ===== src/Analyzers/Bands.antt =====
-- The bands of a valid configuration as intervals of scores.
use os_scanner.Prelude.{ℕ, suc, ◌≤◌, ◌<◌, ◌≡◌, ◌↔◌, arith, ok}
use os_scanner.Analyzers.Risk.{
  RiskLevel, healthy, low, medium, high, critical, RiskConfiguration, validate_bands,
  level_for_score,
}

-- The least score of a level, and the least above it that is not of the level.
abbrev pub band_start : RiskConfiguration → RiskLevel → ℕ
band_start c healthy = c.healthy_minimum
band_start c low = c.low_minimum
band_start c medium = c.medium_minimum
band_start c high = c.high_minimum
band_start c critical = 0

abbrev pub band_end : ℕ → RiskConfiguration → RiskLevel → ℕ
band_end hundred c healthy = suc hundred
band_end hundred c low = c.healthy_minimum
band_end hundred c medium = c.low_minimum
band_end hundred c high = c.medium_minimum
band_end hundred c critical = c.high_minimum

-- Under a configuration with valid bands a score has a level exactly where it is in the level's band,
-- from its minimum up to below the minimum of the next better level, the best band ending with 100.
pub level_for_score-band :
    (hundred : ℕ) (c d : RiskConfiguration)
    → validate_bands hundred c ≡ ok d
    → (score : ℕ) (level : RiskLevel)
    → (level_for_score hundred c score ≡ ok level)
      ↔ ((band_start c level ≤ score) × (score < band_end hundred c level))
unfolding validate_bands level_for_score
level_for_score-band hundred c d valid score healthy = ground (arith, valid)
level_for_score-band hundred c d valid score low = ground (arith, valid)
level_for_score-band hundred c d valid score medium = ground (arith, valid)
level_for_score-band hundred c d valid score high = ground (arith, valid)
level_for_score-band hundred c d valid score critical = ground (arith, valid)
