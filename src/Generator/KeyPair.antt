-- ===== src/Generator/KeyPair.antt =====
-- The results of the key generators of the config-server library (cfgtypes).
use secretgen_controller.Common.{Text}
use secretgen_controller.Api.Errors.{Error}

pub record KeyPair : Type 0 where
  pub public_key : Text
  pub private_key : Text

pub data Generated : Type 0 where
  key_pair : KeyPair → Generated
  no_key : Error → Generated
