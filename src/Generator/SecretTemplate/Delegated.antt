-- ===== src/Generator/SecretTemplate/Delegated.antt =====
-- The inputs of a template with a service account: each is read with the account's reader.
use secretgen_controller.Common.{
  text_eq_instance, Text, codes, false, List, [], ◌∷◌, ◌++◌, ◌≡◌, refl,
}
use secretgen_controller.Common.Maps
use secretgen_controller.Common.Maps.{Map}
use secretgen_controller.Common.Go.{value}
use secretgen_controller.Kube.{Fetched, found, failed}
use secretgen_controller.Api.{NamespacedName}
use secretgen_controller.Api.Errors.{Error, errorf}
use secretgen_controller.Api.Templates.{InputResource, SecretTemplate}
use secretgen_controller.Generator.SecretTemplate.Inputs.{
  GroupVersionKind, Reader, Surroundings, Env, should_track, in_namespace, resolve_input_resource,
  read_next, read_resolved, read_inputs, track_resolved, resolve_with,
}

module _ {W J : Type 0} (around : Surroundings W J) (reader : Reader W J) (namespace : Text) where
  -- The inputs, the values before and the cluster before; the result and the cluster after. The inputs are
  -- read with the reader, from the namespace, in order, up to the first failure.
  pub data ReadsBy : List InputResource → Map Text J → W → Fetched (Map Text J) → W → Type 0 where
    finished : (values : Map Text J) (w : W) → ReadsBy [] values w (found values) w
    unresolved :
        (input : InputResource) (inputs : List InputResource) (values : Map Text J) (w : W)
        (err : Error)
        → resolve_input_resource around input.ref values ≡ failed err
        → ReadsBy
            (input ∷ inputs)
            values
            w
            (failed (errorf (codes "unable to resolve input resource " ++ input.name) err))
            w
    unread :
        (input : InputResource) (inputs : List InputResource) (values : Map Text J) (w w' : W)
        (err : Error) (gvk : GroupVersionKind) (name : Text)
        → resolve_input_resource around input.ref values ≡ found (gvk, name)
        → reader gvk (in_namespace namespace name) w ≡ (failed err, w')
        → ReadsBy
            (input ∷ inputs)
            values
            w
            (failed (errorf (codes "cannot fetch input resource " ++ name) err))
            w'
    reads :
        (input : InputResource) (inputs : List InputResource) (values : Map Text J) (w w' w'' : W)
        (gvk : GroupVersionKind) (name : Text) (content : J) (result : Fetched (Map Text J))
        → resolve_input_resource around input.ref values ≡ found (gvk, name)
        → reader gvk (in_namespace namespace name) w ≡ (found content, w')
        → ReadsBy inputs (Maps.put input.name content values) w' result w''
        → ReadsBy (input ∷ inputs) values w result w''

module _ {W J : Type 0} (around : Surroundings W J) (t : SecretTemplate)
    (untracked : should_track t ≡ false) (reader : Reader W J) where
  abbrev EndsBy : List InputResource → Map Text J → List NamespacedName → Env W → Type 0
  EndsBy inputs values keys s =
      (read : List NamespacedName) × (result : Fetched (Map Text J)) × (w : W) × (read_inputs around
          reader t inputs values keys s
        ≡ (value (result, read), record s { world = w }))
      × ReadsBy around reader t.meta.namespace inputs values s.world result w

  read_inputs-EndsBy :
      (inputs : List InputResource) (values : Map Text J) (keys : List NamespacedName) (s : Env W)
      → EndsBy inputs values keys s
  unfolding read_inputs
  read_inputs-EndsBy [] values keys s = (keys, found values, s.world, refl, finished values s.world)
  read_inputs-EndsBy (input ∷ inputs) values keys s =
      by_reference (λ vs ks s. read_inputs-EndsBy inputs vs ks s)
        (resolve_input_resource around input.ref values) refl
    where
      by_content :
          ((vs : Map Text J) (ks : List NamespacedName) (s : Env W) → EndsBy inputs vs ks s)
          → (gvk : GroupVersionKind) (name : Text) (content : Fetched J) (w : W)
          → reader gvk (in_namespace t.meta.namespace name) s.world ≡ (content, w)
          → resolve_input_resource around input.ref values ≡ found (gvk, name)
          → EndsBy (input ∷ inputs) values keys s
      by_content next gvk name (failed err) w got resolved = (
        keys,
        failed (errorf (codes "cannot fetch input resource " ++ name) err),
        w,
        rw (untracked, resolved, read_resolved, got, read_next) refl,
        unread input inputs values s.world w err gvk name resolved got,
      )
      by_content next gvk name (found content) w got resolved =
          let k = in_namespace t.meta.namespace name in
          let (read, result, w', ended, run) =
            next (Maps.put input.name content values) (keys ++ (k ∷ [])) (record s { world = w }) in
          (
            read,
            result,
            w',
            rw (untracked, resolved, read_resolved, got, read_next, ended) refl,
            reads input inputs values s.world w w' gvk name content result resolved got run,
          )

      by_reference :
          ((vs : Map Text J) (ks : List NamespacedName) (s : Env W) → EndsBy inputs vs ks s)
          → (reference : Fetched (GroupVersionKind × Text))
          → resolve_input_resource around input.ref values ≡ reference
          → EndsBy (input ∷ inputs) values keys s
      by_reference next (failed err) resolved = (
        keys,
        failed (errorf (codes "unable to resolve input resource " ++ input.name) err),
        s.world,
        rw (untracked, resolved, read_resolved) refl,
        unresolved input inputs values s.world err resolved,
      )
      by_reference next (found (gvk, name)) resolved = by_content next gvk name _ _ refl resolved

  -- Nothing is tracked: all that changes is the cluster.
  pub resolve_with-ReadsBy :
      (s : Env W)
      → (result : Fetched (Map Text J)) × (w : W) × ReadsBy around reader t.meta.namespace
          t.spec.input_resources [] s.world result w
        × (resolve_with around t (found reader) s ≡ (value result, record s { world = w }))
  unfolding resolve_with track_resolved
  resolve_with-ReadsBy s =
      let (read, result, w, ended, run) = read_inputs-EndsBy t.spec.input_resources [] [] s in
      (result, w, run, rw (ended, untracked) refl)
