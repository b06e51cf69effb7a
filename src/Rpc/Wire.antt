-- ===== src/Rpc/Wire.antt =====
-- net/crpc/data.go: what goes over a connection.
use juren_cluster.Prelude.{ℕ, Bytes}

pub record RequestHeader : Type 0 where
  pub method : Bytes
  pub seq : ℕ
  pub token : Bytes

-- What a server sends: `ResponseHeader`, with its number and its error, and the body that follows
-- if there is no error.
pub data Sent (Value : Type 0) : Type 0 where
  header : ℕ → Bytes → Sent Value
  body : Value → Sent Value
