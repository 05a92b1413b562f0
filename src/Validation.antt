-- ===== src/Validation.antt =====
-- The validation of the aggregation rules (pkg/api/aggregation/v1/aggregation.pb.validate.go, generated
-- from the rules that aggregation.proto states) and the loading of a configuration
-- (internal/pkg/util/yamlproto/yamlproto.go).
pub mod Violation
pub mod Matches
pub mod Results
pub mod Configuration
pub mod Validity
pub mod Decides
pub mod Sound
pub mod Loaded
