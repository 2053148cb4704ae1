-- ===== src/Controller/Env.antt =====
-- The environment of the wasmCloud host container in `pod_template` of src/controller.rs.
use wasmcloud_operator.Base.{
  String, Bool, true, false, Option, none, some, List, [], ◌∷◌, ◌++◌, ◌<>◌, unwrap_or, join,
  bool_to_string, to_string,
}
use wasmcloud_operator.HostConfig.{PolicyService, WasmCloudHostConfigSpec}
use wasmcloud_operator.Kube.Pods.{EnvVar}

abbrev pub env : String → String → EnvVar
env name value = record { name = name; value = some value }

-- The variables that are always set.
unfoldable pub fixed_env : WasmCloudHostConfigSpec → List EnvVar
fixed_env spec =
    env "WASMCLOUD_STRUCTURED_LOGGING_ENABLED"
      (bool_to_string (unwrap_or spec.enable_structured_logging true))
    ∷ env "WASMCLOUD_LOG_LEVEL" spec.log_level
    ∷ env "WASMCLOUD_JS_DOMAIN" spec.jetstream_domain
    ∷ env "WASMCLOUD_LATTICE" spec.lattice
    ∷ env "WASMCLOUD_LATTICE_PREFIX" spec.lattice
    ∷ env "WASMCLOUD_NATS_HOST" "127.0.0.1"
    ∷ env "WASMCLOUD_NATS_PORT" "4222"
    ∷ env "WASMCLOUD_RPC_TIMEOUT_MS" "4000"
    ∷ env "WASMCLOUD_LABEL_kubernetes" "true"
    ∷ []

-- `if let Some(v) = field { wasmcloud_env.push(…) }`
abbrev pub env_if : String → Option String → List EnvVar
env_if name none = []
env_if name (some value) = env name value ∷ []

abbrev pub flag_if : String → Bool → List EnvVar
flag_if name true = env name "true" ∷ []
flag_if name false = []

abbrev pub shown : {A : Type 0} → (A → String) → Option A → Option String
shown f none = none
shown f (some a) = some (f a)

unfoldable pub policy_env : Option PolicyService → List EnvVar
policy_env none = []
policy_env (some policy) =
    env_if "WASMCLOUD_POLICY_TOPIC" policy.topic
    ++ (env_if "WASMCLOUD_POLICY_CHANGES_TOPIC" policy.changes_topic
        ++ env_if "WASMCLOUD_POLICY_TIMEOUT" (shown to_string policy.timeout_ms))

unfoldable pub label_env : List (String × String) → List EnvVar
label_env [] = []
label_env ((k, v) ∷ more) = env ("WASMCLOUD_LABEL_" <> k) v ∷ label_env more

unfoldable pub wasmcloud_env : WasmCloudHostConfigSpec → List EnvVar
unfolding fixed_env policy_env label_env
wasmcloud_env spec =
    fixed_env spec
    ++ (env_if "WASMCLOUD_CTL_TOPIC_PREFIX" spec.control_topic_prefix
        ++ (flag_if "WASMCLOUD_CONFIG_SERVICE" spec.config_service_enabled
            ++ (flag_if "WASMCLOUD_OCI_ALLOW_LATEST" spec.allow_latest
                ++ (env_if "WASMCLOUD_OCI_ALLOWED_INSECURE" (shown (join ",") spec.allowed_insecure)
                    ++ (policy_env spec.policy_service
                        ++ (label_env (unwrap_or spec.host_labels [])
                            ++ (env_if "WASMCLOUD_SECRETS_TOPIC" spec.secrets_topic_prefix
                                ++ env_if "WASMCLOUD_MAX_LINEAR_MEMORY"
                                    (shown to_string spec.max_linear_memory_bytes))))))))
