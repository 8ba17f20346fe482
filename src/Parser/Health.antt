-- ===== src/Parser/Health.antt =====
-- config/parser.rs: the `health_check` blocks of `reverse_proxy` and of `tcp`.
use raddy.Base.{ℕ, List, Option, none, some, Bool, true, false, ◌||◌, is_some, ◌==◌, if◌then◌else◌}
use raddy.Config.Source.{HealthCheckSpec, health_check_default, from_secs}
use raddy.Config.Wildcard.{text_eq}
use raddy.Parser.{Method, pure, ◌>>=◌, ◌>>◌, or_fail, fail, refuse_if, block}
use raddy.Values.{Text, codes, is, about, first_word, parse_duration, parse_count}

-- What a block has set.
pub record HealthSlots : Type 0 where
  pub interval : Option ℕ
  pub timeout : Option ℕ
  pub failures : Option ℕ
  pub successes : Option ℕ

abbrev pub no_health_slots : HealthSlots
no_health_slots = record { interval = none; timeout = none; failures = none; successes = none }

abbrev pub unwrap_or {ℓ} : {A : Type ℓ} → Option A → A → A
unwrap_or none a = a
unwrap_or (some b) a = b

abbrev pub health_option : HealthSlots → Text → List Text → Method HealthSlots
health_option s name line =
    if is "interval" name
    then (do
      refuse_if (is_some s.interval) "duplicate interval"
      n ← or_fail (parse_duration line)
      pure (record s { interval = some n }))
    else if is "timeout" name
    then (do
      refuse_if (is_some s.timeout) "duplicate timeout"
      n ← or_fail (parse_duration line)
      pure (record s { timeout = some n }))
    else if is "consecutive_failures" name
    then (do
      refuse_if (is_some s.failures) "duplicate consecutive_failures"
      n ← or_fail (parse_count line (codes "consecutive_failures"))
      pure (record s { failures = some n }))
    else if is "consecutive_successes" name
    then (do
      refuse_if (is_some s.successes) "duplicate consecutive_successes"
      n ← or_fail (parse_count line (codes "consecutive_successes"))
      pure (record s { successes = some n }))
    else fail (about "unknown health_check option '" name "'")

unfoldable pub health_line : HealthSlots → List Text → Bool → Method HealthSlots
unfolding text_eq parse_duration parse_count
health_line s line nested = do
  refuse_if nested "unexpected '{' in health_check block"
  health_option s (first_word line) line

abbrev pub health_spec : HealthSlots → HealthCheckSpec
health_spec s = record {
  interval = unwrap_or s.interval health_check_default.interval;
  timeout = unwrap_or s.timeout health_check_default.timeout;
  consecutive_failures = unwrap_or s.failures health_check_default.consecutive_failures;
  consecutive_successes = unwrap_or s.successes health_check_default.consecutive_successes;
}

abbrev pub health_eof : Text
health_eof = codes "unexpected end of file in health_check block"

abbrev pub check_spec : HealthCheckSpec → Method HealthCheckSpec
check_spec spec = do
  refuse_if (spec.interval == 0 || spec.timeout == 0)
      "health_check interval and timeout must be greater than zero"
  pure spec

unfoldable pub parse_health_check : Bool → Method HealthCheckSpec
unfolding block health_line
parse_health_check false = pure health_check_default
parse_health_check true = do
  s ← block health_eof health_line no_health_slots
  check_spec (health_spec s)

abbrev pub l4_health_spec : HealthSlots → HealthCheckSpec
l4_health_spec s = record {
  interval = unwrap_or s.interval (from_secs 5);
  timeout = unwrap_or s.timeout (from_secs 2);
  consecutive_failures = unwrap_or s.failures 3;
  consecutive_successes = unwrap_or s.successes 2;
}

unfoldable pub parse_l4_health_check : Bool → Method HealthCheckSpec
unfolding block health_line
parse_l4_health_check false = pure (record {
  interval = from_secs 5;
  timeout = from_secs 2;
  consecutive_failures = 3;
  consecutive_successes = 2;
})
parse_l4_health_check true = do
  s ← block health_eof health_line no_health_slots
  check_spec (l4_health_spec s)
