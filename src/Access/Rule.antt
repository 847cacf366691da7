-- ===== src/Access/Rule.antt =====
-- common/src/access-utils.ts, and the procedure metadata of common/src/types.ts.
use Prim.Native.Char.{code}
use checkmate.Prelude.{
  String, Bool, false, not, ◌||◌, List, Option, none, some, ◌==◌, if◌then◌else◌,
}
use checkmate.Prelude.Text.{◌===◌, ◌++ₛ◌}

-- A text counts as false in a test where it is missing or empty.
abbrev pub is_truthy : Option String → Bool
is_truthy none = false
is_truthy (some s) = not (s === "")

pub data AccessLevel : Type 0 where
  read manage : AccessLevel

unfoldable pub level_text : AccessLevel → String
level_text read = "read"
level_text manage = "manage"

pub record InstanceAccessConfig : Type 0 where
  pub id_param : Option String
  pub list_key : Option String
  pub record_key : Option String

pub record AccessRule : Type 0 where
  pub id : String
  pub resource : String
  pub level : AccessLevel
  pub description : String
  pub is_default : Option Bool
  pub is_public : Option Bool
  pub instance_access : Option InstanceAccessConfig

unfoldable pub qualify_access_rule_id : String → AccessRule → String
qualify_access_rule_id plugin_id rule = plugin_id ++ₛ "." ++ₛ rule.id

-- `resourceType.includes(".")`.
pub has_dot : String → Bool
has_dot String.[] = false
has_dot (String.◌∷◌ c s) = code c == b'.' || has_dot s

unfoldable pub qualify_resource_type : String → String → String
unfolding has_dot
qualify_resource_type plugin_id resource_type =
    if has_dot resource_type then resource_type else plugin_id ++ₛ "." ++ₛ resource_type

-- The options argument of `access`; `undefined` options are those with every field missing.
pub record AccessOptions : Type 0 where
  pub id_param : Option String
  pub list_key : Option String
  pub record_key : Option String
  pub is_default : Option Bool
  pub is_public : Option Bool

unfoldable pub access : String → AccessLevel → String → AccessOptions → AccessRule
unfolding level_text
access resource level description options = record {
  id = resource ++ₛ "." ++ₛ level_text level;
  resource = resource;
  level = level;
  description = description;
  is_default = options.is_default;
  is_public = options.is_public;
  instance_access =
      if is_truthy options.id_param || is_truthy options.list_key || is_truthy options.record_key
      then some (record {
        id_param = options.id_param;
        list_key = options.list_key;
        record_key = options.record_key;
      })
      else none;
}

pub record AccessLevelConfig : Type 0 where
  pub description : String
  pub is_default : Option Bool
  pub is_public : Option Bool

-- `instanceAccess?.key`.
abbrev pub config_of : Option InstanceAccessConfig → InstanceAccessConfig
config_of none = record { id_param = none; list_key = none; record_key = none }
config_of (some config) = config

-- The pair is (read, manage); `manage` takes the id parameter alone.
unfoldable pub access_pair :
    String
    → AccessLevelConfig
    → AccessLevelConfig
    → Option InstanceAccessConfig
    → AccessRule × AccessRule
unfolding access
access_pair resource read_config manage_config instance_access = (
  access resource read read_config.description (record {
    id_param = (config_of instance_access).id_param;
    list_key = (config_of instance_access).list_key;
    record_key = (config_of instance_access).record_key;
    is_default = read_config.is_default;
    is_public = read_config.is_public;
  }),
  access resource manage manage_config.description (record {
    id_param = (config_of instance_access).id_param;
    list_key = none;
    record_key = none;
    is_default = manage_config.is_default;
    is_public = manage_config.is_public;
  }),
)

-- `ProcedureMetadata`, as far as the middleware reads it.
pub data UserType : Type 0 where
  anonymous public user service authenticated : UserType

pub record ProcedureMetadata : Type 0 where
  pub user_type : Option UserType
  pub access : Option (List AccessRule)
  pub instance_access : Option InstanceAccessConfig
