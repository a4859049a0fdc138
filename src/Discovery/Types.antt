-- ===== src/Discovery/Types.antt =====
-- What a manifest and a catalog hold: the fields of the schemas in
-- src/switchboard-core/src/network-manifest.ts and service-catalog.ts. The tests that a schema makes of
-- single fields belong to parsing. A date is kept as what `Date.parse` makes of it: `none` is NaN.
use proof_cli_baran.Prelude.{ℕ, Bool, Option, List}
use proof_cli_baran.Prelude.Text.{Text}
use proof_cli_baran.Prelude.Number.{ℤ}

abbrev pub Instant : Type 0
Instant = Option ℤ

-- A member of an object of unknown shape, as far as the program looks at it: the texts of an array, or
-- another value.
pub data MetadataValue : Type 0 where
  texts : List Text → MetadataValue
  other : Text → MetadataValue

abbrev pub Metadata : Type 0
Metadata = List (Text × MetadataValue)

pub data RegistryStatus : Type 0 where
  active deprecated retired : RegistryStatus

pub record Registry : Type 0 where
  pub status : RegistryStatus
  pub address : Text
  pub label : Option Text
  pub abi_version : Option Text
  pub build_hash : Option Text
  pub bytecode_hash : Option Text
  pub from_block : Option ℕ
  pub effective_at : Option Instant
  pub deprecated_at : Option Instant
  pub sunset_at : Option Instant

pub data AssetKind : Type 0 where
  native erc20 : AssetKind

pub record Asset : Type 0 where
  pub address : Text
  pub symbol : Option Text
  pub decimals : Option ℕ
  pub kind : Option AssetKind

pub record ManifestRelay : Type 0 where
  pub relay_id : Text
  pub api_base_url : Option Text
  pub validation_report_url : Option Text
  pub control_plane_url : Option Text
  pub operator_id : Option Text
  pub weight : Option ℕ
  pub active : Option Bool
  pub metadata : Option Metadata

pub record CatalogRef : Type 0 where
  pub url : Text
  pub signer : Option Text
  pub required : Option Bool
  pub max_stale_seconds : Option ℕ
  pub digest : Option Text
  pub metadata : Option Metadata

pub record Chain : Type 0 where
  pub name : Option Text
  pub chain_id : Text

pub record Registries : Type 0 where
  pub active : List Registry
  pub deprecated : List Registry
  pub retired : List Registry

pub record Rpc : Type 0 where
  pub eth : Option (List Text)
  pub substrate : Option (List Text)

pub record Explorer : Type 0 where
  pub blockscout_url : Option Text
  pub proof_explorer_url : Option Text

pub record ControlPlane : Type 0 where
  pub api_base_url : Option Text
  pub api_version : Option Text

pub data TargetNetwork : Type 0 where
  mainnet canary : TargetNetwork

pub record ValidatorLaunch : Type 0 where
  pub enabled : Option Bool
  pub script_ipfs : Option Text
  pub script_hash : Option Text
  pub target_network : Option TargetNetwork
  pub max_active_per_deployer : Option ℕ
  pub relaunch_grace_seconds : Option ℕ

pub record Validators : Type 0 where
  pub launch : Option ValidatorLaunch

pub record Finality : Type 0 where
  pub confirmations : Option ℕ
  pub mode : Option Text

pub record NetworkManifest : Type 0 where
  pub sequence : ℕ
  pub issued_at : Instant
  pub effective_at : Option Instant
  pub expires_at : Option Instant
  pub chain : Chain
  pub registries : Registries
  pub quote_signer : Option Text
  pub supported_assets : Option (List Asset)
  pub rpc : Option Rpc
  pub explorer : Option Explorer
  pub control_plane : Option ControlPlane
  pub catalogs : Option (List (Text × CatalogRef))
  pub validators : Option Validators
  pub relays : Option (List ManifestRelay)
  pub finality : Option Finality

-- A role is one of a list of texts.
abbrev pub ServiceRole : Type 0
ServiceRole = Text

pub data ServiceState : Type 0 where
  candidate active degraded draining disabled : ServiceState

pub record ServiceCatalogMember : Type 0 where
  pub service_id : Text
  pub role : Option ServiceRole
  pub state : ServiceState
  pub api_base_url : Option Text
  pub status_url : Option Text
  pub validation_report_url : Option Text
  pub control_plane_url : Option Text
  pub service_signer : Option Text
  pub acurast_deployment_id : Option Text
  pub acurast_job_id : Option Text
  pub script_hash : Option Text
  pub capabilities : Option (List Text)
  pub weight : Option ℕ
  pub effective_at : Option Instant
  pub expires_at : Option Instant
  pub metadata : Option Metadata

pub record ServiceCatalog : Type 0 where
  pub role : ServiceRole
  pub sequence : ℕ
  pub issued_at : Instant
  pub effective_at : Option Instant
  pub expires_at : Option Instant
  pub members : List ServiceCatalogMember
  pub metadata : Option Metadata

pub data ReportSignatureScheme : Type 0 where
  substrate_sr25519 eip191_secp256k1 : ReportSignatureScheme

pub record ReportSignature : Type 0 where
  pub scheme : ReportSignatureScheme
  pub domain : Text
  pub signer : Text
  pub signature : Text
  pub signed_at : Text
  pub public_key : Option Text
  pub ss58_format : Option ℕ

pub record SignedNetworkManifest : Type 0 where
  pub manifest : NetworkManifest
  pub signature : ReportSignature

pub record SignedServiceCatalog : Type 0 where
  pub catalog : ServiceCatalog
  pub signature : ReportSignature

-- What is signed.
pub data Payload : Type 0 where
  manifest_payload : NetworkManifest → Payload
  catalog_payload : ServiceCatalog → Payload
