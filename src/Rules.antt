-- ===== src/Rules.antt =====
-- The aggregation rules (api/protos/aggregation/v1/aggregation.proto and the Go types generated
-- from it in pkg/api/aggregation/v1/aggregation.pb.go). A oneof is a data type whose `unset` is the
-- oneof with nothing in it; a message that the code tests for nil is an `Option`.
mod Data
mod Getters
pub use Data.*
pub use Getters.*
