-- ===== src/Generator/Password/Created.antt =====
-- The secret that is created for a password.
use secretgen_controller.Common.{text_eq_instance}
use secretgen_controller.Common.Maps
use secretgen_controller.Generator.Random.{Random}
use secretgen_controller.Generator.Password.{Password}
