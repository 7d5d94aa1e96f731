-- ===== src/RateLimit/Policies.antt =====
-- The policies of internal/ratelimit/service.go and their overrides by the environment. The
-- environment is a parameter, as is `time.ParseDuration`, whose `none` is an error. A policy stands with the
-- name of its variables, which the source makes of the policy's name.
use tok.Prelude.{
  ℕ, ◌*◌, ℤ, pos, Option, some, none, List, [], ◌∷◌, map, String, ◌==◌, if◌then◌else◌,
}
use tok.Prelude.Dict.{Dict}
use tok.Prelude.Trim.{trim}
use tok.Prelude.Format.{◌<>◌}
use tok.Prelude.Numerals.{atoi}
use tok.RateLimit.Service.{ScopePart, ip, subject, org, user, PolicyConfig}

pub record Environment : Type 0 where
  pub getenv : String → String
  pub parse_duration : String → Option ℤ

abbrev given : Option ℤ → ℤ → ℤ
given none fallback = fallback
given (some n) fallback = n

-- `envInt`
unfoldable pub env_int : Environment → String → ℤ → ℤ
unfolding trim atoi
env_int env key fallback =
    let value = trim (env.getenv key) in
    if value == "" then fallback else given (atoi value) fallback

-- `envDuration`
unfoldable pub env_duration : Environment → String → ℤ → ℤ
unfolding trim
env_duration env key fallback =
    let value = trim (env.getenv key) in
    if value == "" then fallback else given (env.parse_duration value) fallback

-- `overridePolicy`
unfoldable pub override_policy : Environment → String → PolicyConfig → PolicyConfig
unfolding env_int env_duration
override_policy env prefix c = record c {
  limit = env_int env ("RATE_LIMIT_" <> prefix <> "_LIMIT") c.limit;
  window = env_duration env ("RATE_LIMIT_" <> prefix <> "_WINDOW") c.window;
}

abbrev minutes : ℕ → ℤ
minutes n = pos (n * 60000000000)

abbrev config : ℕ → ℤ → List ScopePart → PolicyConfig
config limit window scope = record { limit = pos limit; window = window; scope = scope }

abbrev everyone : List ScopePart
everyone = org ∷ user ∷ ip ∷ []

abbrev members : List ScopePart
members = org ∷ user ∷ []

-- A policy, the name of its variables, and its defaults.
abbrev built_in : List (String × String × PolicyConfig)
built_in =
    ("iam.signup.ip", "IAM_SIGNUP_IP", config 5 (minutes 1) (ip ∷ []))
    ∷ ("iam.signup.daily_ip", "IAM_SIGNUP_DAILY_IP", config 20 (minutes 1440) (ip ∷ []))
    ∷ ("iam.login.ip", "IAM_LOGIN_IP", config 10 (minutes 5) (ip ∷ []))
    ∷ ("iam.login.subject", "IAM_LOGIN_SUBJECT", config 5 (minutes 5) (subject ∷ []))
    ∷ ("iam.logout.user", "IAM_LOGOUT_USER", config 30 (minutes 1) (user ∷ []))
    ∷ ("gateway.create_rfq", "GATEWAY_CREATE_RFQ", config 10 (minutes 10) everyone)
    ∷ ("gateway.create_bid", "GATEWAY_CREATE_BID", config 20 (minutes 10) everyone)
    ∷ ("gateway.award_rfq", "GATEWAY_AWARD_RFQ", config 10 (minutes 60) everyone)
    ∷ ("gateway.create_order", "GATEWAY_CREATE_ORDER", config 20 (minutes 60) everyone)
    ∷ ("gateway.create_message", "GATEWAY_CREATE_MESSAGE", config 60 (minutes 1) members)
    ∷ ("gateway.create_dispute", "GATEWAY_CREATE_DISPUTE", config 10 (minutes 60) members)
    ∷ ("gateway.resolve_dispute", "GATEWAY_RESOLVE_DISPUTE", config 30 (minutes 60) members)
    ∷ ("gateway.credit_decision", "GATEWAY_CREDIT_DECISION", config 30 (minutes 60) members)
    ∷ []

-- `DefaultPolicies`
unfoldable pub default_policies : Environment → Dict PolicyConfig
unfolding override_policy
default_policies env = map (λ (policy, name, c). (policy, override_policy env name c)) built_in
