-- ===== src/Rbac.antt =====
-- gard/core/rbac.py: the permissions, the roles' tables and `Principal`. A set of permissions is a
-- list of texts.
pub mod Duties
use gard.Prelude.{String, Bool, List, [], ◌∷◌, ◌++◌, str_in, any_of}

abbrev pub read_device : String
read_device = "device.read"

abbrev pub list_devices : String
list_devices = "device.list"

abbrev pub read_observation : String
read_observation = "observation.read"

abbrev pub read_audit : String
read_audit = "audit.read"

abbrev pub read_evidence : String
read_evidence = "evidence.read"

abbrev pub read_rule : String
read_rule = "rule.read"

abbrev pub import_devices : String
import_devices = "device.import"

abbrev pub reevaluate_observation : String
reevaluate_observation = "observation.reevaluate"

abbrev pub manage_rules : String
manage_rules = "rule.manage"

abbrev pub create_manual_mapping : String
create_manual_mapping = "observation.manual_map"

abbrev pub invoke_mcp_tool : String
invoke_mcp_tool = "mcp.tool.invoke"

abbrev pub manage_tokens : String
manage_tokens = "token.manage"

abbrev pub manage_mcp_tools : String
manage_mcp_tools = "mcp.tool.manage"

abbrev pub read_firmware_catalog : String
read_firmware_catalog = "firmware_catalog.read"

abbrev pub manage_firmware_catalog : String
manage_firmware_catalog = "firmware_catalog.manage"

abbrev pub manage_firmware_blob : String
manage_firmware_blob = "firmware_catalog.blob.manage"

abbrev pub read_compliance : String
read_compliance = "compliance.read"

abbrev pub run_compliance_eval : String
run_compliance_eval = "compliance.evaluate"

abbrev pub read_readiness : String
read_readiness = "readiness.read"

abbrev pub run_readiness_eval : String
run_readiness_eval = "readiness.evaluate"

abbrev pub read_uplift : String
read_uplift = "uplift.read"

abbrev pub draft_uplift_wave : String
draft_uplift_wave = "uplift.wave.draft"

abbrev pub approve_uplift_wave : String
approve_uplift_wave = "uplift.wave.approve"

abbrev pub manage_exception : String
manage_exception = "uplift.exception.manage"

abbrev pub approve_exception : String
approve_exception = "uplift.exception.approve"

abbrev pub read_netbox : String
read_netbox = "netbox.read"

abbrev pub sync_netbox : String
sync_netbox = "netbox.sync"

pub data Role : Type 0 where
  viewer lifecycle_manager mcp_client system_admin change_approver : Role

-- `_ROLE_PERMISSIONS` and `role_permissions`
abbrev pub role_permissions : Role → List String
role_permissions viewer =
    read_device ∷ list_devices ∷ read_observation ∷ read_audit ∷ read_evidence ∷ read_rule
    ∷ read_firmware_catalog ∷ read_compliance ∷ read_readiness ∷ read_uplift ∷ read_netbox ∷ []
role_permissions lifecycle_manager =
    read_device ∷ list_devices ∷ read_observation ∷ read_audit ∷ read_evidence ∷ read_rule
    ∷ import_devices ∷ reevaluate_observation ∷ manage_rules ∷ create_manual_mapping
    ∷ read_firmware_catalog ∷ manage_firmware_catalog ∷ manage_firmware_blob ∷ read_compliance
    ∷ run_compliance_eval ∷ read_readiness ∷ run_readiness_eval ∷ read_uplift ∷ draft_uplift_wave
    ∷ manage_exception ∷ read_netbox ∷ sync_netbox ∷ []
role_permissions mcp_client =
    read_device ∷ list_devices ∷ read_observation ∷ read_rule ∷ invoke_mcp_tool
    ∷ read_firmware_catalog ∷ read_compliance ∷ read_readiness ∷ read_uplift ∷ read_netbox ∷ []
role_permissions system_admin =
    read_device ∷ list_devices ∷ read_observation ∷ read_audit ∷ read_evidence ∷ read_rule
    ∷ import_devices ∷ reevaluate_observation ∷ manage_rules ∷ create_manual_mapping
    ∷ invoke_mcp_tool ∷ manage_tokens ∷ manage_mcp_tools ∷ read_firmware_catalog
    ∷ manage_firmware_catalog ∷ manage_firmware_blob ∷ read_compliance ∷ run_compliance_eval
    ∷ read_readiness ∷ run_readiness_eval ∷ read_uplift ∷ draft_uplift_wave ∷ approve_uplift_wave
    ∷ manage_exception ∷ approve_exception ∷ read_netbox ∷ sync_netbox ∷ []
role_permissions change_approver =
    read_device ∷ list_devices ∷ read_observation ∷ read_audit ∷ read_evidence ∷ read_rule
    ∷ read_firmware_catalog ∷ read_compliance ∷ read_readiness ∷ read_uplift ∷ approve_uplift_wave
    ∷ approve_exception ∷ read_netbox ∷ []

pub record Principal : Type 0 where
  pub subject : String
  pub actor_type : String
  pub roles : List Role

-- the loop of `permissions`
abbrev pub permissions_of : List Role → List String
permissions_of [] = []
permissions_of (r ∷ roles) = role_permissions r ++ permissions_of roles

-- `has`
unfoldable pub has : Principal → String → Bool
has p permission = str_in permission (permissions_of p.roles)

-- `has_any`
unfoldable pub has_any : Principal → List String → Bool
has_any p wanted = any_of (λ w. str_in w (permissions_of p.roles)) wanted

-- `all_permissions`
abbrev pub all_permissions : List String
all_permissions =
    permissions_of (viewer ∷ lifecycle_manager ∷ mcp_client ∷ system_admin ∷ change_approver ∷ [])
