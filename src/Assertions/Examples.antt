-- ===== src/Assertions/Examples.antt =====
-- The statements about the assertions at two collected events.
use srx.Prelude.{String, List, [], ◌∷◌}

abbrev required : List String
required = "signature_id" ∷ "severity" ∷ []
