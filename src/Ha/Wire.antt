-- ===== src/Ha/Wire.antt =====
-- What a panel node and a voter send each other over POST /ha/vote, before anything is checked.
use forthway_command_center.Base.{ℕ, Text, Number, Value, Option, List}
use forthway_command_center.Ha.Version.{RawVersion}

-- An entry of a list of panel nodes.
pub record RawPanel : Type 0 where
  pub server_id : Value
  pub direct_url : Value

pub record PanelUrl : Type 0 where
  pub server_id : Text
  pub direct_url : Text

-- `r.request`
pub record RawRequest : Type 0 where
  pub candidate : Value
  pub term : Value
  pub nonce : Value
  pub lease_ms : Value
  pub version : RawVersion

-- The body of a reply. An absent object is `none`.
pub record Reply : Type 0 where
  pub node_id : Value
  pub role : Value
  pub term : Value
  pub leader_id : Value
  pub timings : Option Value
  pub committed : Option RawVersion
  pub handover_to : Value
  pub panels : Option (List RawPanel)
  pub request : Option RawRequest

-- `{ candidate, term, nonce, leaseMs }`, the vote itself.
pub record Grant : Type 0 where
  pub candidate : Text
  pub term : ℕ
  pub nonce : Number
  pub lease_ms : ℕ
