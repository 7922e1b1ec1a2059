-- ===== src/Config.antt =====
-- The configuration of config.go as the program uses it.
pub mod Routing
pub mod Signals
pub mod Unmarshal
pub mod Template
pub mod Accepted
pub mod Tests
use exportercreator.Prelude.{Bool, Text}
use exportercreator.Value.{Fields}
use exportercreator.Component.{ComponentId}
use exportercreator.Rules.{Rule}

pub record ExporterConfig : Type 0 where
  pub id : ComponentId
  pub config : Fields
  pub endpoint_id : Text

pub record ExporterSignals : Type 0 where
  pub metrics : Bool
  pub logs : Bool
  pub traces : Bool

-- `exporter_config` is the struct that the Go type embeds.
pub record ExporterTemplate : Type 0 where
  pub exporter_config : ExporterConfig
  pub rule_text : Text
  pub resource_attributes : Fields
  pub rule : Rule
  pub signals : ExporterSignals
