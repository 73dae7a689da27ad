-- ===== src/Limits/Examples.antt =====
-- The statements about the limits at a flood.
use srx.Prelude.{eq_string}
