-- ===== src/Controller.antt =====
-- cmd/controller/main.go, and the watches that the reconcilers' AttachWatches set up. The manager and
-- the controllers of controller-runtime and the clients of client-go are parameters. Flags, logging,
-- schemes and the constructors, which only fill structs, are left out.
pub mod Registered
pub mod Runs
use secretgen_controller.Common.{Text, codes, Option, none, some, List, [], ◌∷◌, ◌++◌, ℕ}
use secretgen_controller.Common.Go.{Go, Outcome, value, pure, panic, call, ◌>>=◌, ◌>>◌}
use secretgen_controller.Kube.{Fetched, found, failed}
use secretgen_controller.Api.Errors.{Error, errorf}

-- The kinds of objects that are watched.
pub data Kind : Type 0 where
  secret namespace certificate password rsa_key ssh_key secret_template secret_export
        secret_import :
      Kind

-- What an event of a watched object does: the object, its owner, the object's name, the objects that
-- track it, enqueueSecretExportToSecret, enqueueDueToNamespaceChange.
pub data Handler : Type 0 where
  enqueue_object enqueue_same_name enqueue_tracking enqueue_export enqueue_namespace : Handler
  enqueue_owner : Kind → Handler

pub record Watch : Type 0 where
  pub kind : Kind
  pub handler : Handler

-- A reconciler with its watches, each with what its error is wrapped with.
pub data Reconciler : Type 0 where
  certificates passwords rsa_keys ssh_keys secret_templates secret_exports secret_imports secrets :
      Reconciler

pub data Wrapping : Type 0 where
  as_is : Wrapping
  watching : Text → Wrapping

abbrev pub wrap : Wrapping → Error → Error
wrap as_is err = err
wrap (watching what) err = errorf what err

abbrev watch_on : Kind → Handler → Watch
watch_on kind handler = record { kind = kind; handler = handler }

-- AttachWatches of each reconciler.
abbrev pub certificate_watches : List (Watch × Wrapping)
certificate_watches = (watch_on certificate enqueue_object, as_is) ∷ []

abbrev pub password_watches : List (Watch × Wrapping)
password_watches = (watch_on password enqueue_object, as_is) ∷ []

abbrev pub rsa_key_watches : List (Watch × Wrapping)
rsa_key_watches = (watch_on rsa_key enqueue_object, as_is) ∷ []

abbrev pub ssh_key_watches : List (Watch × Wrapping)
ssh_key_watches = (watch_on ssh_key enqueue_object, as_is) ∷ []

abbrev pub secret_template_watches : List (Watch × Wrapping)
secret_template_watches =
    (watch_on secret (enqueue_owner secret_template), as_is)
    ∷ (watch_on secret enqueue_tracking, as_is)
    ∷ (watch_on secret_template enqueue_object, as_is)
    ∷ []

abbrev pub secret_export_watches : List (Watch × Wrapping)
secret_export_watches =
    (watch_on secret_export enqueue_object, watching (codes "Watching secret exports"))
    ∷ (watch_on secret enqueue_same_name, as_is)
    ∷ []

abbrev pub secret_import_watches : List (Watch × Wrapping)
secret_import_watches =
    (watch_on secret_import enqueue_object, watching (codes "Watching secret request"))
    ∷ (watch_on secret enqueue_same_name, as_is)
    ∷ (watch_on secret_export enqueue_export, as_is)
    ∷ (watch_on namespace enqueue_namespace, as_is)
    ∷ []

abbrev pub secret_watches : List (Watch × Wrapping)
secret_watches =
    (watch_on secret enqueue_object, watching (codes "Watching secrets"))
    ∷ (watch_on secret_export enqueue_export, watching (codes "Watching secretExports"))
    ∷ (watch_on namespace enqueue_namespace, as_is)
    ∷ []

unfoldable pub watches : Reconciler → List (Watch × Wrapping)
watches certificates = certificate_watches
watches passwords = password_watches
watches rsa_keys = rsa_key_watches
watches ssh_keys = ssh_key_watches
watches secret_templates = secret_template_watches
watches secret_exports = secret_export_watches
watches secret_imports = secret_import_watches
watches secrets = secret_watches

-- The delays are in nanoseconds.
pub data RateLimiter : Type 0 where
  default_limiter : RateLimiter
  exponential_limiter : (base maximum : ℕ) → RateLimiter

pub record Runtime (W Ctrl : Type 0) : Type 0 where
  pub new_manager : W → Option Error × W
  pub new_core_client : W → Option Error × W
  pub new_sg_client : W → Option Error × W
  pub new_controller : Text → Reconciler → RateLimiter → W → Fetched Ctrl × W
  pub watch : Ctrl → Watch → W → Option Error × W
  pub start : W → Option Error × W

-- The controllers, in the order of their registration.
abbrev pub controllers : List (Text × Reconciler × RateLimiter)
controllers =
    (codes "cert", certificates, default_limiter)
    ∷ (codes "password", passwords, default_limiter)
    ∷ (codes "rsakey", rsa_keys, default_limiter)
    ∷ (codes "sshkey", ssh_keys, default_limiter)
    ∷ (codes "template", secret_templates, exponential_limiter 100000000 120000000000)
    ∷ (codes "secexp", secret_exports, default_limiter)
    ∷ (codes "secimp", secret_imports, default_limiter)
    ∷ (codes "secret", secrets, default_limiter)
    ∷ []

-- os.Exit(1) ends the program, as a panic would.
unfoldable pub exit_if_err : {W : Type 0} → Text → Option Error → Go W (Unit {0})
exit_if_err desc none = pure tt
exit_if_err desc (some err) = panic desc

module _ {W Ctrl : Type 0} (runtime : Runtime W Ctrl) where
  -- Behind a Watch call of AttachWatches.
  unfoldable pub attached : Wrapping → Go W (Option Error) → Option Error → Go W (Option Error)
  attached wrapping rest none = rest
  attached wrapping rest (some err) = pure (some (wrap wrapping err))

  unfoldable pub attach_watches : Ctrl → List (Watch × Wrapping) → Go W (Option Error)
  unfolding attached
  attach_watches ctrl [] = pure none
  attach_watches ctrl ((w, wrapping) ∷ ws) = do
    err ← call (runtime.watch ctrl w)
    attached wrapping (attach_watches ctrl ws) err

  unfoldable pub attached_reply : Text → Option Error → Option Error
  attached_reply name none = none
  attached_reply name (some err) = some (errorf (name ++ codes ": unable to attaches watches") err)

  unfoldable pub register_created : Text → Reconciler → Fetched Ctrl → Go W (Option Error)
  unfolding attach_watches watches attached_reply
  register_created name reconciler (failed err) =
      pure (some (errorf (name ++ codes ": unable to set up") err))
  register_created name reconciler (found ctrl) = do
    err ← attach_watches ctrl (watches reconciler)
    pure (attached_reply name err)

  unfoldable pub register_ctrl_with_rate_limiter :
      Text → Reconciler → RateLimiter → Go W (Option Error)
  unfolding register_created
  register_ctrl_with_rate_limiter desc reconciler limiter = do
    let name = codes "sg-" ++ desc
    ctrl ← call (runtime.new_controller name reconciler limiter)
    register_created name reconciler ctrl

  -- Each registration is followed by exitIfErr.
  unfoldable pub register_all : List (Text × Reconciler × RateLimiter) → Go W (Unit {0})
  unfolding register_ctrl_with_rate_limiter exit_if_err
  register_all [] = pure tt
  register_all ((desc, reconciler, limiter) ∷ rest) = do
    err ← register_ctrl_with_rate_limiter desc reconciler limiter
    exit_if_err (codes "registering") err
    register_all rest

  unfoldable pub start_manager : Go W (Unit {0})
  unfolding exit_if_err
  start_manager = do ended ← call runtime.start; exit_if_err (codes "unable to run manager") ended

  unfoldable pub register_and_start : Go W (Unit {0})
  unfolding register_all start_manager
  register_and_start = do register_all controllers; start_manager

  unfoldable pub build_sg_client : Go W (Unit {0})
  unfolding register_and_start exit_if_err
  build_sg_client = do
    err ← call runtime.new_sg_client
    exit_if_err (codes "building secretgen client") err
    register_and_start

  unfoldable pub build_core_client : Go W (Unit {0})
  unfolding build_sg_client exit_if_err
  build_core_client = do
    err ← call runtime.new_core_client
    exit_if_err (codes "building core client") err
    build_sg_client

  unfoldable pub main : Go W (Unit {0})
  unfolding build_core_client exit_if_err
  main = do
    err ← call runtime.new_manager
    exit_if_err (codes "unable to set up controller manager") err
    build_core_client
