-- ===== src/Generator/Certificate/Reconciler.antt =====
-- Reconcile, reconcile, createSecret, updateSecret, generate, getCARefSecret and updateStatus of
-- pkg/generator/certificate_reconciler.go. Logging is left out.
use secretgen_controller.Common.{ℕ, Text, Bool, Option, none, some, if◌then◌else◌}
use secretgen_controller.Common.Maps.{Map}
use secretgen_controller.Common.Go.{Go, Outcome, value, panicked, pure, panic, call, ◌>>=◌, ◌>>◌}
use secretgen_controller.Kube.{Client, Fetched, found, failed}
use secretgen_controller.Api.{NamespacedName, Secret, key_of, entries}
use secretgen_controller.Api.Errors.{is_not_found}
use secretgen_controller.Api.Conditions.{GenericStatus}
use secretgen_controller.Reconciler.Status.{
  Reply, done, again, set_reconciling, with_reconcile_completed, created_reply,
}
use secretgen_controller.Reconciler.Secrets.{SetControllerReference}
use secretgen_controller.Generator.Inputs.{GenerateInputs, Added, added, not_added, add, is_changed}
use secretgen_controller.Generator.Certificate.{
  Certificate, CertParams, CertResponse, new_cert_params, cert_secret,
}
use secretgen_controller.Generator.Certificate.Loader.{Parsers, LoadCerts, load_certs}

pub record CertificateServices (W C K : Type 0) : Type 0 where
  pub certificates : Client W Certificate
  pub secrets : Client W Secret
  pub set_reference : SetControllerReference
  pub parsers : Parsers C K
  -- CertificateGenerator.Generate, with the loader that it calls. A panic of the loader goes through.
  pub generate_certificate : LoadCerts C K → CertParams → W → Outcome (Fetched CertResponse) × W
  -- json.Marshal of the parameters.
  pub marshal : CertParams → Option Text

abbrev pub inputs_of :
    {W C K : Type 0} → CertificateServices W C K → CertParams → GenerateInputs CertParams
inputs_of services params = record { inputs = params; marshal = services.marshal }

abbrev with_generic_status : GenericStatus → Certificate → Certificate
with_generic_status st cert = record cert { generic_status = st }

abbrev pub with_annotations : Map Text Text → Secret → Secret
with_annotations anns secret = record secret {
  meta = record (secret.meta) { annotations = some anns };
}

module _ {W C K : Type 0} (services : CertificateServices W C K) where
  unfoldable pub present : Fetched Secret → Fetched (Option Secret)
  present (failed err) = failed err
  present (found secret) = found (some secret)

  unfoldable pub ca_secret_named : Certificate → Option Text → Go W (Fetched (Option Secret))
  unfolding present
  ca_secret_named cert none = pure (found none)
  ca_secret_named cert (some name) = do
    secret ← call (services.secrets.get (record { namespace = cert.meta.namespace; name = name }))
    pure (present secret)

  unfoldable pub get_ca_ref_secret : Certificate → Go W (Fetched (Option Secret))
  unfolding ca_secret_named
  get_ca_ref_secret cert = ca_secret_named cert cert.spec.ca_ref

  unfoldable pub generate_with : CertParams → Fetched (Option Secret) → Go W (Fetched CertResponse)
  unfolding load_certs
  generate_with params (failed err) = pure (failed err)
  generate_with params (found ca) =
      services.generate_certificate (load_certs services.parsers ca) params

  unfoldable pub generate : CertParams → Certificate → Go W (Fetched CertResponse)
  unfolding generate_with get_ca_ref_secret
  generate params cert = do ca ← get_ca_ref_secret cert; generate_with params ca

  unfoldable pub create_annotated : Secret → Added → Go W Reply
  unfolding created_reply
  create_annotated secret (not_added err) = pure (again, some err)
  create_annotated secret (added anns) = do
    err ← call (services.secrets.create (with_annotations anns secret))
    pure (created_reply err)

  unfoldable pub create_generated : CertParams → Certificate → Fetched CertResponse → Go W Reply
  unfolding cert_secret create_annotated add
  create_generated params cert (failed err) = pure (again, some err)
  create_generated params cert (found r) =
      let secret = cert_secret services.set_reference cert r in
      create_annotated secret
        (add (inputs_of services params) (some (entries secret.meta.annotations)))

  unfoldable pub create_secret : CertParams → Certificate → Go W Reply
  unfolding create_generated generate
  create_secret params cert = do r ← generate params cert; create_generated params cert r

  unfoldable pub update_secret : CertParams → Certificate → Secret → Go W Reply
  update_secret params cert secret = pure (done, none)

  unfoldable pub reconcile_changed : CertParams → Certificate → Secret → Bool → Go W Reply
  unfolding update_secret
  reconcile_changed params cert secret changed =
      if changed then update_secret params cert secret else pure (done, none)

  unfoldable pub reconcile_fetched : CertParams → Certificate → Fetched Secret → Go W Reply
  unfolding create_secret reconcile_changed is_changed
  reconcile_fetched params cert (failed err) =
      if is_not_found err then create_secret params cert else pure (again, some err)
  reconcile_fetched params cert (found secret) = do
    changed ← (λ w. (is_changed (inputs_of services params) secret.meta.annotations, w))
    reconcile_changed params cert secret changed

  unfoldable pub reconcile : Certificate → Go W Reply
  unfolding reconcile_fetched new_cert_params
  reconcile cert = do
    secret ← call (services.secrets.get (key_of cert.meta))
    reconcile_fetched (new_cert_params cert) cert secret

  -- updateStatus of a deferred call: its error is dropped.
  write_status : GenericStatus → Fetched Certificate → Go W (Unit {0})
  write_status st (failed err) = pure tt
  write_status st (found existing) = do
    call (services.certificates.update_status (with_generic_status st existing))
    pure tt

  update_status : Certificate → GenericStatus → Go W (Unit {0})
  unfolding write_status
  update_status cert st = do
    existing ← call (services.certificates.get (key_of cert.meta))
    write_status st existing

  -- The deferred call runs behind a panic too.
  run_deferred : Certificate → GenericStatus → Outcome Reply → Go W Reply
  unfolding update_status
  run_deferred cert st (panicked message) = do update_status cert st; panic message
  run_deferred cert st (value reply) = do
    let (reply', st') = with_reconcile_completed reply st
    update_status cert st'
    pure reply'

  reconcile_existing : Option ℕ → Certificate → Go W Reply
  unfolding reconcile run_deferred
  reconcile_existing (some deleted) cert w = (value (done, none), w)
  reconcile_existing none cert w =
      let st = set_reconciling cert.meta cert.generic_status in
      let (outcome, w') = reconcile (with_generic_status st cert) w in
      run_deferred cert st outcome w'

  reconcile_request : Fetched Certificate → Go W Reply
  unfolding reconcile_existing
  reconcile_request (failed err) =
      if is_not_found err then pure (done, none) else pure (again, some err)
  reconcile_request (found cert) = reconcile_existing cert.meta.deletion_timestamp cert

  unfoldable pub reconcile_certificate : NamespacedName → Go W Reply
  unfolding reconcile_request
  reconcile_certificate request = do
    cert ← call (services.certificates.get request)
    reconcile_request cert
