-- ===== src/Counter/Usable.antt =====
-- examples/counter/common/src/config.rs: which settings are above zero, and the rate of the acks.
use mathlib.Core.Option
use commonware_restaking.Prelude.{
  ℕ, ◌+◌, ◌*◌, min, ◌<◌, ◌≡◌, ◌==◌, ltb, not, or_default, Option, none, some, inl, inr,
  Option-cases, arith,
}
use commonware_restaking.Counter.Config.{
  Parsers, Environment, filter, non_zero, p2p_message_backlog, parse_positive,
  parse_p2p_quota_period, p2p_quota_period, agg_window, agg_activity_timeout,
  parse_secs_env_duration, round_timeout, rebroadcast_interval, ack_messages_per_second, u32_max,
  default_quota_period, default_agg_window, default_round_timeout, default_rebroadcast_interval,
  default_p2p_message_backlog,
}

filter_positive : (o : Option ℕ) (d : ℕ) → 0 < d → 0 < or_default (filter (λ v. ltb 0 v) o) d
unfolding filter
filter_positive none d h = h
filter_positive (some n) d h = ground arith

nonzero_duration : (o : Option ℕ) (d : ℕ) → 0 < d → 0 < or_default (filter (λ v. not (v == 0)) o) d
unfolding filter
nonzero_duration none d h = h
nonzero_duration (some n) d h = ground arith

bind_non_zero : (o : Option ℕ) (d : ℕ) → 0 < d → 0 < or_default (Option.bind o non_zero) d
unfolding non_zero Option.bind
bind_non_zero none d h = h
bind_non_zero (some n) d h = ground arith

non_zero_positive : (o : Option ℕ) (v : ℕ) → Option.bind o non_zero ≡ some v → 0 < v
unfolding non_zero Option.bind
non_zero_positive none v h = cc
non_zero_positive (some n) v h = ground arith

-- The settings as the runtime, the network and the engine take them: no constructor that wants a value above
-- zero panics, and the channel of the acks takes twice the steady demand, unless it is set by hand.
pub record Usable {F : Type 0} (p : Parsers F) (env : Environment) : Type 0 where
  pub backlog : 0 < p2p_message_backlog p env
  pub quota_period : 0 < p2p_quota_period p env
  pub window : 0 < agg_window p env
  pub timeout : 0 < round_timeout p env
  pub interval : 0 < rebroadcast_interval p env
  pub ack_rate : 0 < ack_messages_per_second p env
  pub ack_demand :
      ack_messages_per_second p (record env { ack_var = none })
      ≡ min
          (p.quotient_ceil_u32 (agg_activity_timeout p env) (rebroadcast_interval p env) * 2 + 8)
          u32_max

module _ {F : Type 0} (p : Parsers F) (env : Environment) where
  ack_positive : 0 < ack_messages_per_second p env
  unfolding ack_messages_per_second
  ack_positive =
      let set = Option.bind (Option.bind env.ack_var (λ v. p.parse_u32 (p.trim v))) non_zero in
      elim (Option-cases set) [
        | inl e ↦ rw (e, ack_messages_per_second) (omega arith)
        | inr (v, e) ↦
            rw (e, ack_messages_per_second)
              (non_zero_positive (Option.bind env.ack_var (λ v. p.parse_u32 (p.trim v))) v e)
      ]

  -- Whatever the variables hold and however they are parsed, the backlog, the quota period, the window, the round
  -- timeout, the rebroadcast interval and the rate of the acks are above zero; without its variable, that
  -- rate is twice the demand and eight more, up to the greatest `u32`.
  pub environment-Usable : Usable p env
  unfolding p2p_message_backlog p2p_quota_period parse_p2p_quota_period agg_window round_timeout
      rebroadcast_interval parse_secs_env_duration ack_messages_per_second Option.bind
      agg_activity_timeout
  environment-Usable = record {
    backlog =
        filter_positive (Option.bind env.backlog_var p.parse_usize) default_p2p_message_backlog
          (omega arith);
    quota_period =
        nonzero_duration
          (Option.bind (parse_positive p env.rate_var) (λ v. p.try_from_secs_f64 (p.reciprocal v)))
          default_quota_period (omega arith);
    window =
        bind_non_zero (Option.bind env.window_var (λ v. p.parse_u64 (p.trim v))) default_agg_window
          (omega arith);
    timeout =
        nonzero_duration (Option.bind (parse_positive p env.round_var) p.try_from_secs_f64)
          default_round_timeout (omega arith);
    interval =
        nonzero_duration (Option.bind (parse_positive p env.rebroadcast_var) p.try_from_secs_f64)
          default_rebroadcast_interval (omega arith);
    ack_rate = ack_positive;
    ack_demand = omega arith;
  }
