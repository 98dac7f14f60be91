-- ===== src/Generator/SecretTemplate/Reading.antt =====
-- Which inputs a template without a service account reads.
use mathlib.Core.List.{append_assoc, append-nil}
use secretgen_controller.Common.{
  text_eq_instance, Text, codes, true, false, List, [], ◌∷◌, ◌++◌, ◌≡◌, refl, sym, ap, Bool-cases,
  inl, inr,
}
use secretgen_controller.Common.Maps
use secretgen_controller.Common.Maps.{Map}
use secretgen_controller.Common.Go.{value}
use secretgen_controller.Kube.{Fetched, found, failed}
use secretgen_controller.Api.{NamespacedName, name_eq_instance}
use secretgen_controller.Api.Errors.{Error, plain, errorf}
use secretgen_controller.Api.Templates.{InputResource, SecretTemplate}
use secretgen_controller.Generator.SecretTemplate.Inputs.{
  GroupVersionKind, Surroundings, Env, should_track, is_secret_ref, in_namespace,
  resolve_input_resource, read_next, read_resolved, read_inputs,
}

module _ {W J : Type 0} (around : Surroundings W J) (namespace : Text) where
  -- The inputs, the values before and the cluster before; the keys that are read, the result and the
  -- cluster after. Only Secrets of the namespace are read, in order, up to the first failure.
  pub data Reads
      : List InputResource
        → Map Text J
        → W
        → List NamespacedName
        → Fetched (Map Text J)
        → W
        → Type 0 where
    finished : (values : Map Text J) (w : W) → Reads [] values w [] (found values) w
    refused :
        (input : InputResource) (inputs : List InputResource) (values : Map Text J) (w : W)
        (err : Error)
        → is_secret_ref input.ref ≡ false
        → Reads (input ∷ inputs) values w [] (failed err) w
    unresolved :
        (input : InputResource) (inputs : List InputResource) (values : Map Text J) (w : W)
        (err err' : Error)
        → is_secret_ref input.ref ≡ true
        → resolve_input_resource around input.ref values ≡ failed err
        → Reads (input ∷ inputs) values w [] (failed err') w
    unread :
        (input : InputResource) (inputs : List InputResource) (values : Map Text J) (w w' : W)
        (err err' : Error) (gvk : GroupVersionKind) (name : Text)
        → is_secret_ref input.ref ≡ true
        → resolve_input_resource around input.ref values ≡ found (gvk, name)
        → around.reader gvk (in_namespace namespace name) w ≡ (failed err, w')
        → Reads (input ∷ inputs) values w [] (failed err') w'
    reads :
        (input : InputResource) (inputs : List InputResource) (values : Map Text J) (w w' w'' : W)
        (gvk : GroupVersionKind) (name : Text) (content : J) (keys : List NamespacedName)
        (result : Fetched (Map Text J))
        → is_secret_ref input.ref ≡ true
        → resolve_input_resource around input.ref values ≡ found (gvk, name)
        → around.reader gvk (in_namespace namespace name) w ≡ (found content, w')
        → Reads inputs (Maps.put input.name content values) w' keys result w''
        → Reads (input ∷ inputs) values w (in_namespace namespace name ∷ keys) result w''

module _ {W J : Type 0} (around : Surroundings W J) (t : SecretTemplate)
    (tracked : should_track t ≡ true) where
  -- The loop ends with a result, and with the keys that it read behind those that it was given.
  abbrev EndsAs : List InputResource → Map Text J → List NamespacedName → Env W → Type 0
  EndsAs inputs values keys s =
      (new : List NamespacedName) × (result : Fetched (Map Text J)) × (w : W) × (read_inputs around
          around.reader t inputs values keys s
        ≡ (value (result, keys ++ new), record s { world = w }))
      × Reads around t.meta.namespace inputs values s.world new result w

  pub read_inputs-EndsAs :
      (inputs : List InputResource) (values : Map Text J) (keys : List NamespacedName) (s : Env W)
      → EndsAs inputs values keys s
  unfolding read_inputs
  read_inputs-EndsAs [] values keys s = (
    [],
    found values,
    s.world,
    ap (λ ks. (value (found values, ks), s)) (sym (append-nil keys)),
    finished values s.world,
  )
  read_inputs-EndsAs (input ∷ inputs) values keys s = elim (Bool-cases (is_secret_ref input.ref)) [
    | inr other ↦ (
      [],
      failed (plain (codes "unable to load non-secrets without a specified serviceaccount")),
      s.world,
      rw (tracked, other, append-nil keys) refl,
      refused input inputs values s.world _ other,
    )
    | inl secret ↦
        by_reference (λ vs ks s. read_inputs-EndsAs inputs vs ks s)
          (resolve_input_resource around input.ref values) refl secret
  ]
    where
      by_content :
          ((vs : Map Text J) (ks : List NamespacedName) (s : Env W) → EndsAs inputs vs ks s)
          → (gvk : GroupVersionKind) (name : Text) (content : Fetched J) (w : W)
          → around.reader gvk (in_namespace t.meta.namespace name) s.world ≡ (content, w)
          → resolve_input_resource around input.ref values ≡ found (gvk, name)
          → is_secret_ref input.ref ≡ true
          → EndsAs (input ∷ inputs) values keys s
      by_content next gvk name (failed err) w got resolved secret = (
        [],
        failed (errorf (codes "cannot fetch input resource " ++ name) err),
        w,
        rw (tracked, secret, resolved, read_resolved, got, read_next, append-nil keys) refl,
        unread input inputs values s.world w err _ gvk name secret resolved got,
      )
      by_content next gvk name (found content) w got resolved secret =
          let k = in_namespace t.meta.namespace name in
          let (new, result, w', ended, run) =
            next (Maps.put input.name content values) (keys ++ (k ∷ [])) (record s { world = w }) in
          (
            k ∷ new,
            result,
            w',
            rw
                (
                  tracked,
                  secret,
                  resolved,
                  read_resolved,
                  got,
                  read_next,
                  ended,
                  append_assoc keys (k ∷ []) new,
                )
                refl,
            reads input inputs values s.world w w' gvk name content new result secret resolved got
                run,
          )

      by_reference :
          ((vs : Map Text J) (ks : List NamespacedName) (s : Env W) → EndsAs inputs vs ks s)
          → (reference : Fetched (GroupVersionKind × Text))
          → resolve_input_resource around input.ref values ≡ reference
          → is_secret_ref input.ref ≡ true
          → EndsAs (input ∷ inputs) values keys s
      by_reference next (failed err) resolved secret = (
        [],
        failed (errorf (codes "unable to resolve input resource " ++ input.name) err),
        s.world,
        rw (tracked, secret, resolved, read_resolved, append-nil keys) refl,
        unresolved input inputs values s.world err _ secret resolved,
      )
      by_reference next (found (gvk, name)) resolved secret =
          by_content next gvk name _ _ refl resolved secret
