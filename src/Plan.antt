-- ===== src/Plan.antt =====
-- internal/plan/plan.go, as far as a run's supervision reads a parsed plan: the configurations of
-- the circuit breaker and of the alert with their defaults, and the request timeout. Integers are natural numbers; the code
-- treats a negative one as it treats 0 throughout.
pub mod Validation
use loadify.Prelude.{ℕ, Bool, true, false, Option, none, some, ltb, leb, if◌then◌else◌}
use loadify.Platform.{Platform, Float, float}

module _ ⦃p : Platform⦄ where
  pub record AutoStopConfig : Type 0 where
    pub enabled : Option Bool
    pub error_rate_pct : Float
    pub window_sec : ℕ
    pub min_requests : ℕ

  pub record AlertConfig : Type 0 where
    pub enabled : Option Bool
    pub error_rate_pct : Float
    pub window_sec : ℕ
    pub min_requests : ℕ

  -- The fields of `Plan` read here; `http`, `grpc` and `sse` are the `timeout_ms` of the configuration
  -- that is present.
  pub record Plan : Type 0 where
    pub http : Option ℕ
    pub grpc : Option ℕ
    pub sse : Option ℕ
    pub auto_stop : Option AutoStopConfig
    pub alert : Option AlertConfig

  -- AutoStopConfig{Enabled: enabled}
  abbrev pub zero_config : Option Bool → AutoStopConfig
  zero_config enabled = record {
    enabled = enabled;
    error_rate_pct = float 0;
    window_sec = 0;
    min_requests = 0;
  }

  -- AutoStopEnabled
  unfoldable pub auto_stop_enabled : AutoStopConfig → Bool
  auto_stop_enabled c = elim c.enabled [ none ↦ true | some b ↦ b ]

  abbrev configured : AutoStopConfig → AutoStopConfig
  configured c = record {
    enabled = some true;
    error_rate_pct = if p.lt_float (float 0) c.error_rate_pct then c.error_rate_pct else float 50;
    window_sec = if ltb 0 c.window_sec then c.window_sec else 10;
    min_requests = if ltb 0 c.min_requests then c.min_requests else 20;
  }

  -- AutoStopOrDefault
  unfoldable pub auto_stop_or_default : Plan → AutoStopConfig
  auto_stop_or_default plan = elim plan.auto_stop [
    | none ↦ record {
      enabled = some true;
      error_rate_pct = float 50;
      window_sec = 10;
      min_requests = 20;
    }
    | some c ↦ elim c.enabled [ some false ↦ zero_config (some false) | _ ↦ configured c ]
  ]

  -- AlertEnabled
  unfoldable pub alert_enabled : AlertConfig → Bool
  alert_enabled c = elim c.enabled [ none ↦ true | some b ↦ b ]

  abbrev alert_configured : AlertConfig → AlertConfig
  alert_configured c = record {
    enabled = some true;
    error_rate_pct = if p.lt_float (float 0) c.error_rate_pct then c.error_rate_pct else float 30;
    window_sec = if ltb 0 c.window_sec then c.window_sec else 10;
    min_requests = if ltb 0 c.min_requests then c.min_requests else 20;
  }

  -- AlertOrDefault
  unfoldable pub alert_or_default : Plan → AlertConfig
  alert_or_default plan = elim plan.alert [
    | none ↦ record {
      enabled = some true;
      error_rate_pct = float 30;
      window_sec = 10;
      min_requests = 20;
    }
    | some c ↦ elim c.enabled [
      | some false ↦ record {
        enabled = some false;
        error_rate_pct = float 0;
        window_sec = 0;
        min_requests = 0;
      }
      | _ ↦ alert_configured c
    ]
  ]

  -- RequestTimeout, in milliseconds.
  unfoldable pub request_timeout_ms : Plan → ℕ
  request_timeout_ms plan =
      let ms : ℕ = elim plan.http [
        | some t ↦ t
        | none ↦ elim plan.grpc [ some t ↦ t | none ↦ elim plan.sse [ some t ↦ t | none ↦ 0 ] ]
      ] in
      if leb ms 0 then 30_000 else ms
