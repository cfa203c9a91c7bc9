-- ===== src/Investigations/Tools.antt =====
-- tools/models.py and tools/registry.py. The members of `InvestigationToolId` are texts; what
-- pydantic makes of a tool's input model is the function `validate_arguments`.
use promptql.Prelude.{
  String, Bool, true, false, not, ◌&&◌, Option, none, some, List, is_some, is_none, is_empty,
  if◌then◌else◌,
}
use promptql.Prelude.Dict.{Dict, text_key, lookup, insert}

pub data ToolOutcome : Type 0 where
  observed empty failed : ToolOutcome

pub data ToolFailureCode : Type 0 where
  capability_unavailable invalid_request unauthorized forbidden not_found : ToolFailureCode
  rate_limited timeout upstream_unavailable invalid_response : ToolFailureCode
  incomplete_result configuration_error source_failure : ToolFailureCode
  write_capability_not_granted : ToolFailureCode

unfoldable pub failure_value : ToolFailureCode → String
failure_value ToolFailureCode.capability_unavailable = "capability_unavailable"
failure_value ToolFailureCode.invalid_request = "invalid_request"
failure_value ToolFailureCode.unauthorized = "unauthorized"
failure_value ToolFailureCode.forbidden = "forbidden"
failure_value ToolFailureCode.not_found = "not_found"
failure_value ToolFailureCode.rate_limited = "rate_limited"
failure_value ToolFailureCode.timeout = "timeout"
failure_value ToolFailureCode.upstream_unavailable = "upstream_unavailable"
failure_value ToolFailureCode.invalid_response = "invalid_response"
failure_value ToolFailureCode.incomplete_result = "incomplete_result"
failure_value ToolFailureCode.configuration_error = "configuration_error"
failure_value ToolFailureCode.source_failure = "source_failure"
failure_value ToolFailureCode.write_capability_not_granted = "write_capability_not_granted"

pub record ToolFailure : Type 0 where
  pub code : ToolFailureCode
  pub message : String

abbrev pub retryable_code : ToolFailureCode → Bool
retryable_code ToolFailureCode.rate_limited = true
retryable_code ToolFailureCode.timeout = true
retryable_code ToolFailureCode.upstream_unavailable = true
retryable_code _ = false

abbrev pub retryable : ToolFailure → Bool
retryable failure = retryable_code failure.code

pub record ToolResult : Type 0 where
  pub tool_id : String
  pub outcome : ToolOutcome
  pub evidence_ids : List String
  pub failure : Option ToolFailure

-- `validate_result_consistency`
abbrev pub consistent_result : ToolOutcome → List String → Option ToolFailure → Bool
consistent_result ToolOutcome.failed evidence_ids failure = is_some failure
consistent_result ToolOutcome.observed evidence_ids failure =
    is_none failure && not (is_empty evidence_ids)
consistent_result ToolOutcome.empty evidence_ids failure = is_none failure && is_empty evidence_ids

abbrev pub result_valid : ToolResult → Bool
result_valid result = consistent_result result.outcome result.evidence_ids result.failure

pub record ToolDefinition (Value : Type 0) : Type 0 where
  pub tool_id : String
  -- `none` where it raises; otherwise what `model_dump` gives of the typed input
  pub validate_arguments : Dict String Value → Option (Dict String Value)
  -- the names in `plan_output_model.model_fields`
  pub output_fields : List String

abbrev pub ToolRegistry : Type 0 → Type 0
ToolRegistry Value = Dict String (ToolDefinition Value)

module _ {Value : Type 0} where
  -- `none` where it raises `DuplicateToolError`
  unfoldable pub register : ToolRegistry Value → ToolDefinition Value → Option (ToolRegistry Value)
  register definitions definition =
      if is_some (lookup definition.tool_id definitions)
      then none
      else some (insert definition.tool_id definition definitions)

  -- `none` where it raises `UnknownToolError`
  unfoldable pub get : ToolRegistry Value → String → Option (ToolDefinition Value)
  get definitions tool_id = lookup tool_id definitions
