-- ===== src/Lanes/Root.antt =====
-- `lane_root_identity` of crates/agentplug-host/src/registry.rs, on the code points of a path.
use agentplug.Base.{◌==◌}
use agentplug.Base.Bytes.{lower}
use agentplug.Base.Maps.{Text}
use agentplug.Verbs.Cost.{trim_end_by, backslashes_to_slashes}

pub lane_root_identity : Text → Text
lane_root_identity root = lower (trim_end_by (λ c. c == b'/') (backslashes_to_slashes root))
