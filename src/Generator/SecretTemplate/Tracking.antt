-- ===== src/Generator/SecretTemplate/Tracking.antt =====
-- What a template without a service account tracks behind the resolution of its inputs.
use secretgen_controller.Common.{
  text_eq_instance, Text, none, true, false, List, [], ◌≡◌, refl, arith, if◌then◌else◌,
}
use secretgen_controller.Common.Maps
use secretgen_controller.Common.Maps.{Map}
use secretgen_controller.Common.Go.{value}
use secretgen_controller.Kube.{Fetched, failed}
use secretgen_controller.Api.{NamespacedName, key_of, name_eq, name_eq_instance}
use secretgen_controller.Api.Errors.{Error, is_not_found}
use secretgen_controller.Api.Templates.{SecretTemplate}
use secretgen_controller.Tracker.{Tracker, track, untrack_all, get_tracking}
use secretgen_controller.Tracker.Relation.{
  tracks, untracks, is_in, relation_of-run_one, run_one-IsMap, get_tracking_lem,
}
use secretgen_controller.Generator.SecretTemplate.Inputs.{
  Surroundings, Env, should_track, track_resolved, client_for_secret_template, resolve_with,
  resolve_input_resources,
}
use secretgen_controller.Reconciler.Status.{done}
use secretgen_controller.Generator.SecretTemplate.Reconciler.{
  map_secret_to_templates, reconcile_request, reconcile_template,
}
use secretgen_controller.Generator.SecretTemplate.Reading.{Reads, read_inputs-EndsAs}

abbrev tracked_anew : SecretTemplate → List NamespacedName → Tracker → Tracker
tracked_anew t keys tracker = track (key_of t.meta) keys (untrack_all (key_of t.meta) tracker)

module _ {W J : Type 0} (around : Surroundings W J) (t : SecretTemplate)
    (tracked : should_track t ≡ true) where
  -- Without a service account, resolveInputResources reads only Secrets of the template's namespace, in
  -- the order of its inputs, up to the first failure; and afterwards a change of a secret is a request for
  -- the template exactly where that secret was read, and one for every other template as before.
  pub resolve_input_resources-Reads :
      (s : Env W)
      → Maps.IsMap s.tracker
      → (keys : List NamespacedName) × (result : Fetched (Map Text J)) × (w : W)
        × (tracker : Tracker) × (resolve_input_resources around t s
            ≡ (value result, record { world = w; tracker = tracker }))
        × Reads around t.meta.namespace t.spec.input_resources [] s.world keys result w
        × ((x k : NamespacedName)
            → is_in x (map_secret_to_templates k tracker) ≡ (
                if name_eq (key_of t.meta) x
                then is_in k keys
                else is_in x (map_secret_to_templates k s.tracker)))
  unfolding resolve_input_resources client_for_secret_template resolve_with track_resolved
      map_secret_to_templates
  resolve_input_resources-Reads s m =
      let (keys, result, w, ended, run) =
        read_inputs-EndsAs around t tracked t.spec.input_resources [] [] s in
      (
        keys,
        result,
        w,
        tracked_anew t keys s.tracker,
        rw (tracked, ended, tracked) refl,
        run,
        related keys,
      )
    where
      related :
          (keys : List NamespacedName) (x k : NamespacedName)
          → is_in x (get_tracking k (tracked_anew t keys s.tracker)) ≡ (
              if name_eq (key_of t.meta) x
              then is_in k keys
              else is_in x (get_tracking k s.tracker))
      related keys x k =
          let a = key_of t.meta in
          let cleared = untrack_all a s.tracker in
          let now =
            get_tracking_lem x k (tracked_anew t keys s.tracker)
              (run_one-IsMap (tracks a keys) cleared (run_one-IsMap (untracks a) s.tracker m)) in
          ground (
            arith,
            now,
            relation_of-run_one (tracks a keys) cleared x k,
            relation_of-run_one (untracks a) s.tracker x k,
            get_tracking_lem x k s.tracker m,
          )

module _ {W J : Type 0} (around : Surroundings W J) where
  -- Where a template is not there any more, its reconcile only gets it, clears it from the tracker and
  -- replies that it is done; afterwards no change of a secret is a request for that template, and each is
  -- one for the same other templates as before. The tracker has no key twice.
  pub reconcile_template-untracks :
      (request : NamespacedName) (s : Env W) (err : Error) (w : W)
      → around.templates.get request s.world ≡ (failed err, w)
      → is_not_found err ≡ true
      → Maps.IsMap s.tracker
      → (tracker : Tracker) × (reconcile_template around request s
          ≡ (value (done, none), record { world = w; tracker = tracker }))
        × ((x k : NamespacedName)
            → is_in x (map_secret_to_templates k tracker) ≡ (
                if name_eq request x then false else is_in x (map_secret_to_templates k s.tracker)))
  unfolding reconcile_template reconcile_request map_secret_to_templates
  reconcile_template-untracks request s err w missing absent m = (
    untrack_all request s.tracker,
    rw (missing, absent) refl,
    λ x k. ground (
      arith,
      get_tracking_lem x k (untrack_all request s.tracker)
          (run_one-IsMap (untracks request) s.tracker m),
      relation_of-run_one (untracks request) s.tracker x k,
      get_tracking_lem x k s.tracker m,
    ),
  )
