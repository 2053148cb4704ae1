-- ===== src/Tests/HeaderRuns.antt =====
-- src/header.rs at the headers of its comment.
use wasmcloud_operator.Base.{◌≡◌, refl, some, [], ◌∷◌}
use wasmcloud_operator.Header.{
  api_group_discovery_list, table, not_specified, decode, encode, as_to_string,
}
use wasmcloud_operator.Header.RoundTrip.{decode-parameter, decode-encode}

decode-discovery :
    decode (some "application/json;g=apidiscovery.k8s.io;v=v2beta1;as=APIGroupDiscoveryList" ∷ [])
    ≡ api_group_discovery_list
unfolding decode
decode-discovery = refl

decode-parameter_example : decode (some "application/json;as=Table;g=meta.k8s.io;v=v1" ∷ []) ≡ table
unfolding as_to_string
decode-parameter_example =
    decode-parameter table ("application/json" ∷ []) ("g=meta.k8s.io" ∷ "v=v1" ∷ []) [] (refl, tt)
      (refl, (refl, tt)) (refl, tt)

decode-encode_example : decode (encode table []) ≡ not_specified
decode-encode_example = decode-encode table
