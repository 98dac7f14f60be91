-- ===== src/Controller/Runs.antt =====
-- The runs of main.
use secretgen_controller.Common.{Text, codes, Option, none, some, ◌≡◌, refl}
use secretgen_controller.Common.Go.{Outcome, value, panicked}
use secretgen_controller.Api.Errors.{Error}
use secretgen_controller.Controller.{
  Runtime, controllers, exit_if_err, build_core_client, build_sg_client, register_and_start,
  start_manager, register_all, main,
}
use secretgen_controller.Controller.Registered.{Registered, register_all-Registered}

module _ {W Ctrl : Type 0} (runtime : Runtime W Ctrl) where
  abbrev ended : Option Error → Outcome (Unit {0})
  ended none = value tt
  ended (some err) = panicked (codes "unable to run manager")

  -- A run of the program: the manager and the clients are made, the controllers are registered, and only
  -- where all that succeeded is the manager started, once.
  pub data Runs : W → Outcome (Unit {0}) → W → Type 0 where
    no_manager :
        {w a : W} {err : Error}
        → runtime.new_manager w ≡ (some err, a)
        → Runs w (panicked (codes "unable to set up controller manager")) a
    no_core_client :
        {w a b : W} {err : Error}
        → runtime.new_manager w ≡ (none, a)
        → runtime.new_core_client a ≡ (some err, b)
        → Runs w (panicked (codes "building core client")) b
    no_sg_client :
        {w a b c : W} {err : Error}
        → runtime.new_manager w ≡ (none, a)
        → runtime.new_core_client a ≡ (none, b)
        → runtime.new_sg_client b ≡ (some err, c)
        → Runs w (panicked (codes "building secretgen client")) c
    not_registered :
        {w a b c d : W} {message : Text}
        → runtime.new_manager w ≡ (none, a)
        → runtime.new_core_client a ≡ (none, b)
        → runtime.new_sg_client b ≡ (none, c)
        → Registered runtime controllers c (panicked message) d
        → Runs w (panicked message) d
    started :
        {w a b c d w' : W} {failure : Option Error}
        → runtime.new_manager w ≡ (none, a)
        → runtime.new_core_client a ≡ (none, b)
        → runtime.new_sg_client b ≡ (none, c)
        → Registered runtime controllers c (value tt) d
        → runtime.start d ≡ (failure, w')
        → Runs w (ended failure) w'

  abbrev Ends : W → Type 0
  Ends w =
      (outcome : Outcome (Unit {0})) × (w' : W) × (main runtime w ≡ (outcome, w'))
      × Runs w outcome w'

  started-Ends :
      {w a b c : W}
      → runtime.new_manager w ≡ (none, a)
      → runtime.new_core_client a ≡ (none, b)
      → runtime.new_sg_client b ≡ (none, c)
      → Ends w
  unfolding main build_core_client build_sg_client register_and_start start_manager
  started-Ends {w} {a} {b} {c} managed core sg =
      let (outcome, d, registers, all) = register_all-Registered runtime controllers c in
      by_outcome outcome d registers all
    where
      by_failure :
          (d : W)
          → register_all runtime controllers c ≡ (value tt, d)
          → Registered runtime controllers c (value tt) d
          → (failure : Option Error) (w' : W) → runtime.start d ≡ (failure, w')
          → Ends w
      by_failure d registers all none w' starts = (
        value tt,
        w',
        rw (managed, core, sg, exit_if_err, registers, starts) refl,
        started managed core sg all starts,
      )
      by_failure d registers all (some err) w' starts = (
        panicked (codes "unable to run manager"),
        w',
        rw (managed, core, sg, exit_if_err, registers, starts) refl,
        started managed core sg all starts,
      )

      by_outcome :
          (outcome : Outcome (Unit {0})) (d : W)
          → register_all runtime controllers c ≡ (outcome, d)
          → Registered runtime controllers c outcome d
          → Ends w
      by_outcome (panicked message) d registers all = (
        panicked message,
        d,
        rw (managed, core, sg, exit_if_err, registers) refl,
        not_registered managed core sg all,
      )
      by_outcome (value tt) d registers all =
          by_failure d registers all (runtime.start d).0 (runtime.start d).1 refl

  clients-Ends : {w a : W} → runtime.new_manager w ≡ (none, a) → Ends w
  unfolding main build_core_client build_sg_client
  clients-Ends {w} {a} managed =
      by_core (runtime.new_core_client a).0 (runtime.new_core_client a).1 refl
    where
      by_sg :
          {b : W}
          → runtime.new_core_client a ≡ (none, b)
          → (failure : Option Error) (c : W) → runtime.new_sg_client b ≡ (failure, c)
          → Ends w
      by_sg core none c sg = started-Ends managed core sg
      by_sg core (some err) c sg = (
        panicked (codes "building secretgen client"),
        c,
        rw (managed, core, sg, exit_if_err) refl,
        no_sg_client managed core sg,
      )

      by_core : (failure : Option Error) (b : W) → runtime.new_core_client a ≡ (failure, b) → Ends w
      by_core none b core = by_sg core (runtime.new_sg_client b).0 (runtime.new_sg_client b).1 refl
      by_core (some err) b core = (
        panicked (codes "building core client"),
        b,
        rw (managed, core, exit_if_err) refl,
        no_core_client managed core,
      )

  -- Every run of main ends as follows. The manager and the two clients are made; then each controller is
  -- made and gets all the watches of its reconciler, in order; and only then is the manager started, once,
  -- whose error, if it ends with one, exits. The first error on the way exits with what it was for, and
  -- nothing is done behind it.
  pub main-Runs :
      (w : W)
      → (outcome : Outcome (Unit {0})) × (w' : W) × (main runtime w ≡ (outcome, w'))
        × Runs w outcome w'
  unfolding main
  main-Runs w = by_manager (runtime.new_manager w).0 (runtime.new_manager w).1 refl
    where
      by_manager : (failure : Option Error) (a : W) → runtime.new_manager w ≡ (failure, a) → Ends w
      by_manager none a managed = clients-Ends managed
      by_manager (some err) a managed = (
        panicked (codes "unable to set up controller manager"),
        a,
        rw (managed, exit_if_err) refl,
        no_manager managed,
      )
