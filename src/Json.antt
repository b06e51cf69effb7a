-- ===== src/Json.antt =====
-- Values of JSON, as `encoding/json` reads and writes them for oid/oid.go and config/config.go. The
-- quotes and escapes of a string are those of its text; numbers are those of an int64 that are not
-- negative.
use juren_cluster.Prelude.{ℕ, [], Bytes}
use juren_cluster.Outcome.{Result, ok, err, decode_error}

mutual
  pub data Json : Type 0 where
    null : Json
    text : Bytes → Json
    number : ℕ → Json
    object : Fields → Json

  pub data Fields : Type 0 where
    end : Fields
    field : Bytes → Json → Fields → Fields

-- `json.Unmarshal` into a new string, which null leaves empty.
unfoldable pub string_of : Json → Result Bytes
string_of null = ok []
string_of (text t) = ok t
string_of _ = err decode_error
