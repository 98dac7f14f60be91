-- ===== src/Generator/Certificate/Loader.antt =====
-- singleCertLoader of pkg/generator/certs_loader.go. pem.Decode and the parsers of crypto/x509 are
-- parameters: certificates are of a type `C` and private keys of a type `K`.
use mathlib.Core.Option.{get_or}
use secretgen_controller.Common.{Text, codes, text_eq_instance, Option, none, some, []}
use secretgen_controller.Common.Maps
use secretgen_controller.Common.Go.{Outcome, value, panicked}
use secretgen_controller.Kube.{Fetched, found, failed}
use secretgen_controller.Api.{Secret, entries}
use secretgen_controller.Api.Errors.{plain, errorf}
use secretgen_controller.Generator.Certificate.{default_certificate_key, default_private_key}

pub record Parsers (C K : Type 0) : Type 0 where
  -- The bytes of the first block.
  pub pem_decode : Text → Option Text
  pub x509_certificate : Text → Fetched C
  pub pkcs1_private_key : Text → Fetched K

-- LoadCerts of a loader that the generator is given: a certificate and its key, or an error.
abbrev pub LoadCerts : (C K : Type 0) → Type 0
LoadCerts C K = Text → Outcome (Fetched (C × K))

-- The error is wrapped with what was done.
abbrev pub parsing : {A : Type 0} → Text → Fetched A → Fetched A
parsing what (failed err) = failed (errorf what err)
parsing what (found a) = found a

-- A missing key reads as the empty text.
abbrev pub data_at : Text → Secret → Text
data_at k secret = get_or (Maps.get k (entries secret.contents)) []

module _ {C K : Type 0} (parsers : Parsers C K) where
  unfoldable pub certificate_block : Option Text → Fetched C
  certificate_block none = failed (plain (codes "Certificate did not contain PEM formatted block"))
  certificate_block (some block) =
      parsing (codes "Parsing certificate") (parsers.x509_certificate block)

  unfoldable pub parse_certificate : Text → Fetched C
  unfolding certificate_block
  parse_certificate text = certificate_block (parsers.pem_decode text)

  unfoldable pub private_key_block : Option Text → Fetched K
  private_key_block none = failed (plain (codes "Private key did not contain PEM formatted block"))
  private_key_block (some block) =
      parsing (codes "Parsing private key") (parsers.pkcs1_private_key block)

  unfoldable pub parse_private_key : Text → Fetched K
  unfolding private_key_block
  parse_private_key text = private_key_block (parsers.pem_decode text)

  unfoldable pub with_key : C → Fetched K → Fetched (C × K)
  with_key crt (failed err) = failed err
  with_key crt (found key) = found (crt, key)

  unfoldable pub with_certificate : Secret → Fetched C → Fetched (C × K)
  unfolding with_key parse_private_key
  with_certificate secret (failed err) = failed err
  with_certificate secret (found crt) =
      with_key crt (parse_private_key (data_at default_private_key secret))

  -- Without a secret the loader's pointer is nil.
  unfoldable pub load_certs : Option Secret → LoadCerts C K
  unfolding with_certificate parse_certificate
  load_certs none name = panicked (codes "invalid memory address or nil pointer dereference")
  load_certs (some secret) name =
      value (with_certificate secret (parse_certificate (data_at default_certificate_key secret)))
