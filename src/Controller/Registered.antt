-- ===== src/Controller/Registered.antt =====
-- The registration of the controllers and their watches, as a relation, which registerCtrlWithRateLimiter and
-- AttachWatches follow.
use secretgen_controller.Common.{Text, codes, Option, none, some, List, [], ◌∷◌, ◌++◌, ◌≡◌, refl}
use secretgen_controller.Common.Go.{Outcome, value, panicked}
use secretgen_controller.Kube.{Fetched, found, failed}
use secretgen_controller.Api.Errors.{Error}
use secretgen_controller.Controller.{
  Watch, Reconciler, Wrapping, watches, wrap, RateLimiter, Runtime, exit_if_err, attached,
  attach_watches, attached_reply, register_created, register_ctrl_with_rate_limiter, register_all,
}

module _ {W Ctrl : Type 0} (runtime : Runtime W Ctrl) where
  -- The watches are set in order, from one state of the cluster to another, up to the first error.
  pub data Watched (ctrl : Ctrl) : List (Watch × Wrapping) → W → Option Error → W → Type 0 where
    watched_all : (w : W) → Watched ctrl [] w none w
    refused :
        {x : Watch} {wrapping : Wrapping} {rest : List (Watch × Wrapping)} {w w' : W} {err : Error}
        → runtime.watch ctrl x w ≡ (some err, w')
        → Watched ctrl ((x, wrapping) ∷ rest) w (some (wrap wrapping err)) w'
    watched :
        {x : Watch} {wrapping : Wrapping} {rest : List (Watch × Wrapping)} {w w' w'' : W}
        {failure : Option Error}
        → runtime.watch ctrl x w ≡ (none, w')
        → Watched ctrl rest w' failure w''
        → Watched ctrl ((x, wrapping) ∷ rest) w failure w''

  -- The controllers are made in order, each with all the watches of its reconciler, up to the first error,
  -- which exits.
  pub data Registered
      : List (Text × Reconciler × RateLimiter) → W → Outcome (Unit {0}) → W → Type 0 where
    registered_all : (w : W) → Registered [] w (value tt) w
    not_made :
        {desc : Text} {reconciler : Reconciler} {limiter : RateLimiter}
        {rest : List (Text × Reconciler × RateLimiter)} {w w' : W} {err : Error}
        → runtime.new_controller (codes "sg-" ++ desc) reconciler limiter w ≡ (failed err, w')
        → Registered ((desc, reconciler, limiter) ∷ rest) w (panicked (codes "registering")) w'
    not_watched :
        {desc : Text} {reconciler : Reconciler} {limiter : RateLimiter}
        {rest : List (Text × Reconciler × RateLimiter)} {w w' w'' : W} {ctrl : Ctrl} {err : Error}
        → runtime.new_controller (codes "sg-" ++ desc) reconciler limiter w ≡ (found ctrl, w')
        → Watched ctrl (watches reconciler) w' (some err) w''
        → Registered ((desc, reconciler, limiter) ∷ rest) w (panicked (codes "registering")) w''
    registered :
        {desc : Text} {reconciler : Reconciler} {limiter : RateLimiter}
        {rest : List (Text × Reconciler × RateLimiter)} {w w' w'' w''' : W} {ctrl : Ctrl}
        {outcome : Outcome (Unit {0})}
        → runtime.new_controller (codes "sg-" ++ desc) reconciler limiter w ≡ (found ctrl, w')
        → Watched ctrl (watches reconciler) w' none w''
        → Registered rest w'' outcome w'''
        → Registered ((desc, reconciler, limiter) ∷ rest) w outcome w'''

  attach_watches-Watched :
      (ctrl : Ctrl) (ws : List (Watch × Wrapping)) (w : W)
      → (failure : Option Error) × (w' : W) × (attach_watches runtime ctrl ws w
          ≡ (value failure, w'))
        × Watched ctrl ws w failure w'
  unfolding attach_watches
  attach_watches-Watched ctrl [] w = (none, w, refl, watched_all w)
  attach_watches-Watched ctrl ((x, wrapping) ∷ ws) w =
      by_answer (λ w. attach_watches-Watched ctrl ws w) (runtime.watch ctrl x w).0 _ refl
    where
      by_answer :
          ((w : W)
            → (failure : Option Error) × (w' : W) × (attach_watches runtime ctrl ws w
                ≡ (value failure, w'))
              × Watched ctrl ws w failure w')
          → (err : Option Error) (w1 : W) → runtime.watch ctrl x w ≡ (err, w1)
          → (failure : Option Error) × (w' : W) × (attach_watches runtime ctrl
                ((x, wrapping) ∷ ws)
                w
              ≡ (value failure, w'))
            × Watched ctrl ((x, wrapping) ∷ ws) w failure w'
      by_answer next (some err) w1 e =
          (some (wrap wrapping err), w1, rw (e, attached) refl, refused e)
      by_answer next none w1 e =
          let (failure, w', attaches, all) = next w1 in
          (failure, w', rw (e, attached, attaches) refl, watched e all)

  -- How the registrations end.
  abbrev Registers : List (Text × Reconciler × RateLimiter) → W → Type 0
  Registers cs w =
      (outcome : Outcome (Unit {0})) × (w' : W) × (register_all runtime cs w ≡ (outcome, w'))
      × Registered cs w outcome w'

  pub register_all-Registered :
      (cs : List (Text × Reconciler × RateLimiter)) (w : W) → Registers cs w
  unfolding register_all register_ctrl_with_rate_limiter
  register_all-Registered [] w = (value tt, w, refl, registered_all w)
  register_all-Registered ((desc, reconciler, limiter) ∷ rest) w =
      by_answer (λ w. register_all-Registered rest w)
        (runtime.new_controller (codes "sg-" ++ desc) reconciler limiter w).0 _ refl
    where
      by_watches :
          ((w : W) → Registers rest w)
          → (ctrl : Ctrl) (w1 : W)
          → runtime.new_controller (codes "sg-" ++ desc) reconciler limiter w ≡ (found ctrl, w1)
          → (failure : Option Error) (w2 : W)
          → attach_watches runtime ctrl (watches reconciler) w1 ≡ (value failure, w2)
          → Watched ctrl (watches reconciler) w1 failure w2
          → Registers ((desc, reconciler, limiter) ∷ rest) w
      by_watches next ctrl w1 e (some err) w2 attaches all = (
        panicked (codes "registering"),
        w2,
        rw (e, register_created, attaches, attached_reply, exit_if_err) refl,
        not_watched e all,
      )
      by_watches next ctrl w1 e none w2 attaches all =
          let (outcome, w', ends, others) = next w2 in
          (
            outcome,
            w',
            rw (e, register_created, attaches, attached_reply, exit_if_err, ends) refl,
            registered e all others,
          )

      by_answer :
          ((w : W) → Registers rest w)
          → (answer : Fetched Ctrl) (w1 : W)
          → runtime.new_controller (codes "sg-" ++ desc) reconciler limiter w ≡ (answer, w1)
          → Registers ((desc, reconciler, limiter) ∷ rest) w
      by_answer next (failed err) w1 e = (
        panicked (codes "registering"),
        w1,
        rw (e, register_created, exit_if_err) refl,
        not_made e,
      )
      by_answer next (found ctrl) w1 e =
          let (failure, w2, attaches, all) = attach_watches-Watched ctrl (watches reconciler) w1 in
          by_watches next ctrl w1 e failure w2 attaches all
