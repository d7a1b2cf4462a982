-- ===== src/Config/Tests.antt =====
-- Configurations, and the theorem about them at a concrete one.
use labeler_relay.Prelude.{◌≡◌, refl, true, ◌*◌, pos, ok, err, str_eq, if◌then◌else◌}
use labeler_relay.Config.{Config, Parsers, Environment, config_of, load, parse_duration, validate}
use labeler_relay.Config.Bounds.{Valid, load-Valid}

abbrev parsers : Parsers
parsers = record {
  parse_bool = λ s. err "invalid syntax";
  atoi = λ s.
      if str_eq s "213504"
      then ok (pos 213504)
      else if str_eq s "7"
      then ok (pos 7)
      else err "invalid syntax";
  parse_duration =
      λ s. if str_eq s "336h" then ok (pos (336 * 3600000000000)) else err "invalid duration";
}

abbrev environment : Environment
environment key = if str_eq key "LABELER_RELAY_ADMIN_TOKEN" then "s3" else ""

week : parse_duration parsers "7d" ≡ ok (pos (7 * 24 * 3600000000000))
unfolding parse_duration
week = refl

-- The product wraps: 213504 days are 1526 seconds.
wrapped_days : parse_duration parsers "213504d" ≡ ok (pos 1526290448384)
unfolding parse_duration
wrapped_days = refl

abbrev defaults : Config
defaults =
    config_of environment true true (pos (336 * 3600000000000)) (pos 500) (pos 100000) (pos 512)

load-Valid_example : Valid defaults
unfolding load validate parse_duration
load-Valid_example = load-Valid parsers environment defaults refl
