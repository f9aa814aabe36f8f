-- ===== src/Counter/Config.antt =====
-- examples/counter/common/src/config.rs: the settings that are read from the environment. The parsing of
-- strings and the arithmetic of floats are a record of functions; a duration is its nanoseconds.
use mathlib.Core.Option
use commonware_restaking.Prelude.{
  ℕ, ◌+◌, ◌*◌, ◌-◌, ◌^◌, min, max, ◌==◌, ltb, if◌then◌else◌, ◌&&◌, not, or_default, Bool, Option,
  none, some, List,
}

-- `trim`, `parse`, the tests and the quotients of floats, and `try_from_secs_f64`.
pub record Parsers (F : Type 0) : Type 0 where
  pub trim : List ℕ → List ℕ
  pub parse_usize : List ℕ → Option ℕ
  pub parse_u64 : List ℕ → Option ℕ
  pub parse_u32 : List ℕ → Option ℕ
  pub parse_f64 : List ℕ → Option F
  pub is_positive : F → Bool
  pub is_finite : F → Bool
  pub reciprocal : F → F
  pub try_from_secs_f64 : F → Option ℕ
  pub quotient_ceil_u32 : ℕ → ℕ → ℕ

-- The variables, `none` where one is not set.
pub record Environment : Type 0 where
  pub backlog_var : Option (List ℕ)
  pub rate_var : Option (List ℕ)
  pub window_var : Option (List ℕ)
  pub activity_var : Option (List ℕ)
  pub round_var : Option (List ℕ)
  pub rebroadcast_var : Option (List ℕ)
  pub ack_var : Option (List ℕ)

abbrev pub default_p2p_message_backlog : ℕ
default_p2p_message_backlog = 256

-- The period of the default rate, of one message in a second.
abbrev pub default_quota_period : ℕ
default_quota_period = 1000000000

abbrev pub default_agg_window : ℕ
default_agg_window = 8

abbrev pub default_agg_activity_timeout : ℕ
default_agg_activity_timeout = 256

abbrev pub default_round_timeout : ℕ
default_round_timeout = 30000000000

abbrev pub default_rebroadcast_interval : ℕ
default_rebroadcast_interval = 5000000000

abbrev pub u32_max : ℕ
u32_max = 2 ^ 32 - 1

-- `Option::filter`.
unfoldable pub filter : {A : Type 0} → (A → Bool) → Option A → Option A
filter p none = none
filter p (some a) = if p a then some a else none

-- `NonZeroU64::new`, `NonZeroU32::new`.
unfoldable pub non_zero : ℕ → Option ℕ
non_zero n = if n == 0 then none else some n

module _ {F : Type 0} (p : Parsers F) where
  unfoldable pub p2p_message_backlog : Environment → ℕ
  unfolding filter Option.bind
  p2p_message_backlog env =
      or_default (filter (λ v. ltb 0 v) (Option.bind env.backlog_var p.parse_usize))
        default_p2p_message_backlog

  -- A float that is positive and finite.
  unfoldable pub parse_positive : Option (List ℕ) → Option F
  unfolding filter Option.bind
  parse_positive value =
      filter (λ v. p.is_positive v && p.is_finite v)
        (Option.bind value (λ v. p.parse_f64 (p.trim v)))

  unfoldable pub parse_p2p_quota_period : Option (List ℕ) → ℕ
  unfolding parse_positive filter Option.bind
  parse_p2p_quota_period value =
      or_default
        (filter (λ d. not (d == 0))
          (Option.bind (parse_positive value) (λ v. p.try_from_secs_f64 (p.reciprocal v))))
        default_quota_period

  unfoldable pub p2p_quota_period : Environment → ℕ
  unfolding parse_p2p_quota_period
  p2p_quota_period env = parse_p2p_quota_period env.rate_var

  unfoldable pub agg_window : Environment → ℕ
  unfolding non_zero Option.bind
  agg_window env =
      or_default (Option.bind (Option.bind env.window_var (λ v. p.parse_u64 (p.trim v))) non_zero)
        default_agg_window

  unfoldable pub agg_activity_timeout : Environment → ℕ
  unfolding Option.bind
  agg_activity_timeout env =
      or_default (Option.bind env.activity_var (λ v. p.parse_u64 (p.trim v)))
        default_agg_activity_timeout

  unfoldable pub parse_secs_env_duration : Option (List ℕ) → ℕ → ℕ
  unfolding parse_positive filter Option.bind
  parse_secs_env_duration value default_duration =
      or_default
        (filter (λ d. not (d == 0)) (Option.bind (parse_positive value) p.try_from_secs_f64))
        default_duration

  unfoldable pub round_timeout : Environment → ℕ
  unfolding parse_secs_env_duration
  round_timeout env = parse_secs_env_duration env.round_var default_round_timeout

  unfoldable pub rebroadcast_interval : Environment → ℕ
  unfolding parse_secs_env_duration
  rebroadcast_interval env =
      parse_secs_env_duration env.rebroadcast_var default_rebroadcast_interval

  -- Without the variable, twice the steady demand and a little more, with the saturation of `u32`.
  unfoldable pub ack_messages_per_second : Environment → ℕ
  unfolding non_zero agg_activity_timeout rebroadcast_interval Option.bind
  ack_messages_per_second env =
      elim (Option.bind (Option.bind env.ack_var (λ v. p.parse_u32 (p.trim v))) non_zero) [
        | some v ↦ v
        | none ↦
            let demand =
              p.quotient_ceil_u32 (agg_activity_timeout env) (rebroadcast_interval env) in
            max (min (min (demand * 2) u32_max + 8) u32_max) 8
      ]
