-- ===== src/Controller/Observability.antt =====
-- `configure_observability` of src/controller.rs.
use wasmcloud_operator.Base.{
  String, false, Option, none, some, List, [], ◌∷◌, ◌++◌, ◌==◌, if◌then◌else◌, unwrap_or,
}
use wasmcloud_operator.HostConfig.{
  otel_to_string, OtelSignalConfiguration, ObservabilityConfiguration, WasmCloudHostConfigSpec,
}

-- The block for one signal: traces, metrics and logs have the same.
unfoldable pub signal_args : String → String → Option OtelSignalConfiguration → List String
signal_args enable_flag endpoint_flag none = []
signal_args enable_flag endpoint_flag (some signal) =
    (if unwrap_or signal.enable false then enable_flag ∷ [] else [])
    ++ (elim signal.endpoint [ none ↦ [] | some endpoint ↦ endpoint_flag ∷ endpoint ∷ [] ])

unfoldable pub observability_args : ObservabilityConfiguration → List String
unfolding signal_args otel_to_string
observability_args o =
    (if o.enable then "--enable-observability" ∷ [] else [])
    ++ ((if o.endpoint == "" then [] else "--override-observability-endpoint" ∷ o.endpoint ∷ [])
        ++ ((elim o.protocol [
          | none ↦ []
          | some protocol ↦ "--observability-protocol" ∷ otel_to_string protocol ∷ []
        ])
            ++ (signal_args "--enable-traces" "--override-traces-endpoint" o.traces
                ++ (signal_args "--enable-metrics" "--override-metrics-endpoint" o.metrics
                    ++ signal_args "--enable-logs" "--override-logs-endpoint" o.logs))))

unfoldable pub configure_observability : WasmCloudHostConfigSpec → List String
unfolding observability_args
configure_observability spec = elim spec.observability [ none ↦ [] | some o ↦ observability_args o ]
