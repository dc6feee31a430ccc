-- ===== src/Context/Messages.antt =====
-- crates/voya-core/src/context.rs: the errors and warnings of a context.
use voya_vpn.Base.{Bool, true, false, List, [], ◌∷◌, ◌++◌, Option, none, some, map, Text}
use voya_vpn.Entities.{ConfigType}

-- The texts of the program, by what they say: those that quote another one have it inside.
pub data Message : Type 0 where
  invalid_address invalid_port invalid_password invalid_flow invalid_ss_method : Message
  invalid_public_key invalid_final_mask : Message
  unsupported_network : Text → Message
  unsupported_protocol : ConfigType → Message
  unsupported_protocol_network : ConfigType → Text → Message
  unsupported_shadowsocks_network : Text → Message
  group_cycle : Text → Text → Message
  no_valid_child_node : Text → Message
  group_child group_child_group : Text → Text → Message → Message
  empty_outbound_tag : Text → Message
  outbound_not_found : Text → Text → Message
  outbound_warning outbound_error : Text → Text → Message → Message

pub record NodeValidatorResult : Type 0 where
  pub errors : List Message
  pub warnings : List Message

abbrev pub empty_result : NodeValidatorResult
empty_result = record { errors = []; warnings = [] }

abbrev pub no_messages : List Message → Bool
no_messages [] = true
no_messages (e ∷ es) = false

unfoldable pub success : NodeValidatorResult → Bool
success result = no_messages result.errors

abbrev pub push_warning : Message → NodeValidatorResult → NodeValidatorResult
push_warning warning result = record result { warnings = result.warnings ++ (warning ∷ []) }

abbrev pub push_error : Message → NodeValidatorResult → NodeValidatorResult
push_error error result = record result { errors = result.errors ++ (error ∷ []) }

-- `extend_prefixed_warnings` and `extend_prefixed_errors` with the same prefix.
abbrev pub extend_prefixed :
    (Message → Message) → NodeValidatorResult → NodeValidatorResult → NodeValidatorResult
extend_prefixed prefix from result = record {
  errors = result.errors ++ map prefix from.errors;
  warnings = result.warnings ++ map prefix from.warnings;
}

-- The errors of a group that has a child all the same.
unfoldable pub errors_as_warnings : NodeValidatorResult → NodeValidatorResult
errors_as_warnings result = record { errors = []; warnings = result.warnings ++ result.errors }

unfoldable pub combined : NodeValidatorResult → Option NodeValidatorResult → NodeValidatorResult
combined left none = left
combined left (some right) = record {
  errors = left.errors ++ right.errors;
  warnings = left.warnings ++ right.warnings;
}
