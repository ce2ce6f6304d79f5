-- ===== src/Service/Sweep.antt =====
-- The sweep of src/service/lifecycle.rs among other calls, and returns in any state.
use stateset_icp_handler.Prelude.Keyed.{string_eq}
use stateset_icp_handler.Chrono.{Chrono}
