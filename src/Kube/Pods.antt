-- ===== src/Kube/Pods.antt =====
-- The pod objects of k8s-openapi. `other` stands for the fields that the operator neither reads
-- nor sets, in serialised form.
use wasmcloud_operator.Base.{ℕ, ℤ, String, Bool, Option, List}
use wasmcloud_operator.Base.BTreeMap.{BTreeMap}
use wasmcloud_operator.Kube.Objects.{ObjectMeta}

pub record EnvVar : Type 0 where
  pub name : String
  pub value : Option String

pub record VolumeMount : Type 0 where
  pub name : String
  pub mount_path : String
  pub read_only : Option Bool
  pub sub_path : Option String

pub record SecretVolumeSource : Type 0 where
  pub secret_name : Option String

pub record ConfigMapVolumeSource : Type 0 where
  pub name : Option String

pub record Volume : Type 0 where
  pub name : String
  pub secret : Option SecretVolumeSource
  pub config_map : Option ConfigMapVolumeSource

pub record ResourceRequirements : Type 0 where
  pub limits : BTreeMap String
  pub requests : BTreeMap String

pub record Container : Type 0 where
  pub name : String
  pub image : Option String
  pub command : Option (List String)
  pub args : Option (List String)
  pub env : Option (List EnvVar)
  pub image_pull_policy : Option String
  pub ports : Option (List ℕ)
  pub pre_stop : Option (List String)
  pub resources : Option ResourceRequirements
  pub volume_mounts : Option (List VolumeMount)
  pub other : String

pub record PodSpec : Type 0 where
  pub service_account : Option String
  pub service_account_name : Option String
  pub containers : List Container
  pub volumes : Option (List Volume)
  pub other : String

pub record PodTemplateSpec : Type 0 where
  pub labels : Option (BTreeMap String)
  pub spec : Option PodSpec

pub record DeploymentSpec : Type 0 where
  pub replicas : Option ℤ
  pub match_labels : Option (BTreeMap String)
  pub template : PodTemplateSpec

pub record DaemonSetSpec : Type 0 where
  pub match_labels : Option (BTreeMap String)
  pub template : PodTemplateSpec

pub record Deployment : Type 0 where
  pub metadata : ObjectMeta
  pub spec : Option DeploymentSpec

pub record DaemonSet : Type 0 where
  pub metadata : ObjectMeta
  pub spec : Option DaemonSetSpec
