-- ===== src/Generator.antt =====
-- pkg/generator: the reconcilers that create a secret for a request object.
pub mod Random
pub mod Password
pub mod KeyPair
pub mod RsaKey
pub mod SshKey
pub mod Certificate
pub mod Inputs
pub mod JsonPath
pub mod SecretTemplate
pub mod ServiceAccounts
