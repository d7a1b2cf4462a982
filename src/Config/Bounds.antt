-- ===== src/Config/Bounds.antt =====
-- What a configuration that loads is known to satisfy.
use labeler_relay.Prelude.{
  ◌≡◌, refl, String, Bool, true, false, ltb_ℤ, pos, Result, ok, err, sym, ◌>>=◌, ◌>>◌, with_context,
  str_eq, not, subst,
}
use labeler_relay.Config.{
  Config, Parsers, Environment, validate, checked, load, reject_unless, config_of, parse_bool_env,
  parse_int_env, parse_duration, get_env_or,
}

-- The limits that the rest of the program relies on.
pub record Valid (cfg : Config) : Type 0 where
  pub token : str_eq cfg.admin_token "" ≡ false
  pub window : ltb_ℤ (pos 0) cfg.retention_window ≡ true
  pub per_sec : ltb_ℤ (pos 0) cfg.upstream_rate_limit.per_sec ≡ true
  pub per_hour : ltb_ℤ (pos 0) cfg.upstream_rate_limit.per_hour ≡ true
  pub buf_positive : ltb_ℤ (pos 0) cfg.subscriber_buf_size ≡ true
  pub buf_bounded : ltb_ℤ (pos 65536) cfg.subscriber_buf_size ≡ false

bind-ok :
    {A B : Type 0} (P : B → Type 0) (m : Result A) (f : A → Result B)
    → ((a : A) (b : B) → f a ≡ ok b → P b)
    → (b : B) → (m >>= f) ≡ ok b
    → P b
bind-ok P (ok a) f k b h = k a b h
bind-ok P (err e) f k b h = cc

with_context-ok :
    {A : Type 0} (text : String) (m : Result A) (a : A) → with_context text m ≡ ok a → m ≡ ok a
with_context-ok text (ok x) a h = h
with_context-ok text (err e) a h = cc

reject_unless-ok :
    (b : Bool) (t : String) (k : Result (Unit {0})) (cfg out : Config)
    → ((reject_unless b t >> k) >> ok cfg) ≡ ok out
    → (b ≡ true) × ((k >> ok cfg) ≡ ok out)
reject_unless-ok true t k cfg out h = (refl, h)
reject_unless-ok false t k cfg out h = cc

last_test-ok :
    (b : Bool) (t : String) (cfg out : Config)
    → (reject_unless b t >> ok cfg) ≡ ok out
    → (b ≡ true) × (cfg ≡ out)
last_test-ok true t cfg out h = (refl, cc)
last_test-ok false t cfg out h = cc

not-false : (b : Bool) → not b ≡ true → b ≡ false
not-false true h = sym h
not-false false h = refl

checked-Valid : (cfg out : Config) → checked cfg ≡ ok out → Valid out
unfolding validate
checked-Valid cfg out h =
    let (a, ha) = reject_unless-ok _ "admin_token is required" _ cfg out h in
    let (b, hb) = reject_unless-ok _ "retention_window must be positive" _ cfg out ha in
    let (c, hc) = reject_unless-ok _ "upstream_rate_limit.per_sec must be positive" _ cfg out hb in
    let (d, hd) = reject_unless-ok _ "upstream_rate_limit.per_hour must be positive" _ cfg out hc in
    let (e, he) = reject_unless-ok _ "subscriber_buf_size must be positive" _ cfg out hd in
    let (f, hf) = last_test-ok _ "subscriber_buf_size must be at most 65536" cfg out he in
    subst Valid hf (record {
      token = not-false _ a;
      window = b;
      per_sec = c;
      per_hour = d;
      buf_positive = e;
      buf_bounded = not-false _ f;
    })

-- A configuration that Load returns has an admin token, a positive retention window, positive rate limits,
-- and a subscriber buffer of 1 to 65536 events.
pub load-Valid : (p : Parsers) (env : Environment) (cfg : Config) → load p env ≡ ok cfg → Valid cfg
unfolding load parse_duration
load-Valid p env cfg h =
    bind-ok Valid
      (parse_bool_env p env "LABELER_RELAY_AUTO_SUBSCRIBE_DISCOVERED" "auto_subscribe_discovered"
        true)
      _
      (λ auto.
        bind-ok Valid (parse_bool_env p env "LABELER_RELAY_REQUIRE_SIG" "require_sig" true) _
          (λ sig.
            bind-ok Valid
              (with_context "invalid retention_window"
                (parse_duration p (get_env_or env "LABELER_RELAY_RETENTION_WINDOW" "336h")))
              _
              (λ window.
                bind-ok Valid
                  (parse_int_env p env "LABELER_RELAY_UPSTREAM_RATE_LIMIT_PER_SEC"
                    "upstream_rate_limit.per_sec" (pos 500))
                  _
                  (λ per_sec.
                    bind-ok Valid
                      (parse_int_env p env "LABELER_RELAY_UPSTREAM_RATE_LIMIT_PER_HOUR"
                        "upstream_rate_limit.per_hour" (pos 100000))
                      _
                      (λ per_hour.
                        bind-ok Valid
                          (parse_int_env p env "LABELER_RELAY_SUBSCRIBER_BUF_SIZE"
                            "subscriber_buf_size" (pos 512))
                          _
                          (λ buf.
                            checked-Valid (config_of env auto sig window per_sec per_hour buf)))))))
      cfg (with_context-ok "failed to load config" _ cfg h)
