-- ===== src/Config.antt =====
-- internal/config/config.go. The environment is a function, whose empty string is an unset variable;
-- strconv.ParseBool, strconv.Atoi and time.ParseDuration are the parameters `Parsers`. The text of
-- an error leaves out the value that it quotes.
pub mod Bounds
mod Tests
use Prim.Native.String
use Prim.Native.String.{slice, len}
use labeler_relay.Prelude.{
  ℕ, zero, suc, ◌≡◌, String, Bool, true, false, not, ◌||◌, Option, none, some, if◌then◌else◌, ltb_ℤ,
  ℤ, pos, negsuc, wrap64, ◌-ℤ◌, ◌+◌, ◌-◌, ◌*◌, Result, ok, err, ◌>>=◌, ◌>>◌, errorf, with_context,
  str_eq,
}

pub record RateLimit : Type 0 where
  pub per_sec : ℤ
  pub per_hour : ℤ

pub record Config : Type 0 where
  pub db_path : String
  pub listen_addr : String
  pub firehose_url : String
  pub admin_token : String
  pub retention_window : ℤ
  pub auto_subscribe_discovered : Bool
  pub require_sig : Bool
  pub upstream_rate_limit : RateLimit
  pub subscriber_buf_size : ℤ

pub record Parsers : Type 0 where
  pub parse_bool : String → Result Bool
  pub atoi : String → Result ℤ
  pub parse_duration : String → Result ℤ

abbrev pub Environment : Type 0
Environment = String → String

abbrev pub get_env_or : Environment → String → String → String
get_env_or env key fallback = if str_eq (env key) "" then fallback else env key

abbrev pub parse_bool_env : Parsers → Environment → String → String → Bool → Result Bool
parse_bool_env p env key field fallback =
    if str_eq (env key) ""
    then ok fallback
    else with_context (String.◌++◌ "invalid " field) (p.parse_bool (env key))

abbrev pub parse_int_env : Parsers → Environment → String → String → ℤ → Result ℤ
parse_int_env p env key field fallback =
    if str_eq (env key) ""
    then ok fallback
    else with_context (String.◌++◌ "invalid " field) (p.atoi (env key))

-- time.Duration(days) * 24 * time.Hour, in nanoseconds of 64 bits
abbrev pub days_in_nanos : ℤ → ℤ
days_in_nanos (ℤ.pos n) = wrap64 (pos (n * 86400000000000))
days_in_nanos (ℤ.negsuc n) = wrap64 (pos 0 -ℤ pos ((n + 1) * 86400000000000))

-- parseDuration, with its shorthand "Nd"
unfoldable pub parse_duration : Parsers → String → Result ℤ
parse_duration p s =
    if str_eq (slice s (len s - 1) (len s)) "d"
    then with_context "invalid day count" (p.atoi (slice s 0 (len s - 1)))
      >>= (λ days. ok (days_in_nanos days))
    else p.parse_duration s

-- A test of validate that ends it with an error.
abbrev pub reject_unless : Bool → String → Result (Unit {0})
reject_unless true text = ok tt
reject_unless false text = err text

unfoldable pub validate : Config → Result (Unit {0})
validate cfg = do
  reject_unless (not (str_eq cfg.admin_token "")) "admin_token is required"
  reject_unless (ltb_ℤ (pos 0) cfg.retention_window) "retention_window must be positive"
  reject_unless (ltb_ℤ (pos 0) cfg.upstream_rate_limit.per_sec)
      "upstream_rate_limit.per_sec must be positive"
  reject_unless (ltb_ℤ (pos 0) cfg.upstream_rate_limit.per_hour)
      "upstream_rate_limit.per_hour must be positive"
  reject_unless (ltb_ℤ (pos 0) cfg.subscriber_buf_size) "subscriber_buf_size must be positive"
  reject_unless (not (ltb_ℤ (pos 65536) cfg.subscriber_buf_size))
      "subscriber_buf_size must be at most 65536"

abbrev pub checked : Config → Result Config
checked cfg = validate cfg >> ok cfg

-- The configuration from its parsed fields.
abbrev pub config_of : Environment → Bool → Bool → ℤ → ℤ → ℤ → ℤ → Config
config_of env auto sig window per_sec per_hour buf = record {
  db_path = get_env_or env "LABELER_RELAY_DB_PATH" "labeler-relay.db";
  listen_addr = get_env_or env "LABELER_RELAY_LISTEN_ADDR" ":8080";
  firehose_url =
      get_env_or env "LABELER_RELAY_FIREHOSE_URL"
        "wss://bsky.network/xrpc/com.atproto.sync.subscribeRepos";
  admin_token = env "LABELER_RELAY_ADMIN_TOKEN";
  retention_window = window;
  auto_subscribe_discovered = auto;
  require_sig = sig;
  upstream_rate_limit = record { per_sec = per_sec; per_hour = per_hour };
  subscriber_buf_size = buf;
}

-- Load
unfoldable pub load : Parsers → Environment → Result Config
unfolding validate parse_duration
load p env = with_context "failed to load config" (do
  auto ←
      parse_bool_env p env "LABELER_RELAY_AUTO_SUBSCRIBE_DISCOVERED" "auto_subscribe_discovered"
        true
  sig ← parse_bool_env p env "LABELER_RELAY_REQUIRE_SIG" "require_sig" true
  window ←
      with_context "invalid retention_window"
        (parse_duration p (get_env_or env "LABELER_RELAY_RETENTION_WINDOW" "336h"))
  per_sec ←
      parse_int_env p env "LABELER_RELAY_UPSTREAM_RATE_LIMIT_PER_SEC" "upstream_rate_limit.per_sec"
        (pos 500)
  per_hour ←
      parse_int_env p env "LABELER_RELAY_UPSTREAM_RATE_LIMIT_PER_HOUR"
        "upstream_rate_limit.per_hour" (pos 100000)
  buf ← parse_int_env p env "LABELER_RELAY_SUBSCRIBER_BUF_SIZE" "subscriber_buf_size" (pos 512)
  checked (config_of env auto sig window per_sec per_hour buf))
