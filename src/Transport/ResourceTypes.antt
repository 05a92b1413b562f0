-- ===== src/Transport/ResourceTypes.antt =====
-- The type URLs of go-control-plane's resource packages (pkg/resource/v2 and v3), which the program
-- compares with and which the repository does not hold.
use xds_relay.Prelude.{String}

pub record TypeUrls : Type 0 where
  pub endpoint : String
  pub cluster : String
  pub route : String
  pub listener : String
  pub secret : String
  pub runtime : String

pub record ResourceTypes : Type 0 where
  pub v2 : TypeUrls
  pub v3 : TypeUrls
