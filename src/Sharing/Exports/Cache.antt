-- ===== src/Sharing/Exports/Cache.antt =====
-- The effect of `Export` and `Unexport` on the cache, and its invariant.
use secretgen_controller.Common.{
  Text, text_eq, text_eq_iff, text_eq_instance, ◌≡◌, ◌≢◌, refl, none, some, [], ◌∷◌, arith,
  if◌then◌else◌, Bool-cases, inl, inr,
}
use secretgen_controller.Common.Maps
use secretgen_controller.Common.Maps.{
  Map, Absent, IsMap, get-put, get-delete, put-IsMap, delete-IsMap,
}
use secretgen_controller.Common.Go.{Outcome, value, panicked}
use secretgen_controller.Api.{Secret}
use secretgen_controller.Api.Exports.{SecretExport}
use secretgen_controller.Sharing.Exports.{
  ExportedSecret, SecretExports, export, unexport, key, export_guards, stored, dropped,
  new_exported_secret,
}

-- An entry stands under the name of its export, which is the name of its secret.
pub record IsExported (k : Text) (es : ExportedSecret) : Type 0 where
  pub at_key : k ≡ key es.export
  pub namespace : es.export.meta.namespace ≡ es.secret.meta.namespace
  pub name : es.export.meta.name ≡ es.secret.meta.name
  pub selectors : es.namespaces_matcher ≡ es.export.spec.to_namespaces_selector

abbrev pub AllExported : SecretExports → Type 0
AllExported [] = Unit
AllExported ((k, es) ∷ m) = IsExported k es × AllExported m

pub record IsCache (cache : SecretExports) : Type 0 where
  pub is_map : IsMap cache
  pub all_exported : AllExported cache

put-AllExported :
    (k : Text) (es : ExportedSecret) (m : SecretExports)
    → IsExported k es
    → AllExported m
    → AllExported (Maps.put k es m)
unfolding Maps.put
put-AllExported k es [] h a = (h, tt)
put-AllExported k es ((j, x) ∷ m) h a = elim (Bool-cases (text_eq j k)) [
  | inl same ↦ rw same (h, a.1)
  | inr other ↦ rw other (a.0, put-AllExported k es m h a.1)
]

delete-AllExported : (k : Text) (m : SecretExports) → AllExported m → AllExported (Maps.delete k m)
unfolding Maps.delete
delete-AllExported k [] a = tt
delete-AllExported k ((j, x) ∷ m) a = elim (Bool-cases (text_eq j k)) [
  | inl same ↦ rw same (delete-AllExported k m a.1)
  | inr other ↦ rw other (a.0, delete-AllExported k m a.1)
]

new_exported_secret-IsExported :
    (e : SecretExport) (s : Secret) {es : ExportedSecret}
    → new_exported_secret e s ≡ value es
    → IsExported (key es.export) es
unfolding new_exported_secret
new_exported_secret-IsExported e s h =
    ground
      (arith, text_eq_iff e.meta.namespace s.meta.namespace, text_eq_iff e.meta.name s.meta.name)

-- `Export` panics or writes the entry of its key, and keeps the cache well formed either way.
pub export-IsCache :
    (e : SecretExport) (s : Secret) (cache : SecretExports)
    → IsCache cache
    → IsCache (export e s cache).1
unfolding export
export-IsCache e s cache h = go (new_exported_secret e s) refl
  where
    go : (o : Outcome ExportedSecret) → new_exported_secret e s ≡ o → IsCache (stored o cache).1
    go (panicked m) eq = h
    go (value es) eq = record {
      is_map = put-IsMap (key es.export) es cache h.is_map;
      all_exported =
          put-AllExported (key es.export) es cache (new_exported_secret-IsExported e s eq)
            h.all_exported;
    }

-- `Unexport` panics or removes the entry of its key, and keeps the cache well formed either way.
pub unexport-IsCache :
    (e : SecretExport) (cache : SecretExports) → IsCache cache → IsCache (unexport e cache).1
unfolding unexport
unexport-IsCache e cache h = go (export_guards e)
  where
    go : (o : Outcome (Unit {0})) → IsCache (dropped (key e) o cache).1
    go (panicked m) = h
    go (value _) = record {
      is_map = delete-IsMap (key e) cache h.is_map;
      all_exported = delete-AllExported (key e) cache h.all_exported;
    }

abbrev pub entry_of : SecretExport → Secret → ExportedSecret
entry_of e s = record { export = e; secret = s; namespaces_matcher = e.spec.to_namespaces_selector }

-- The guards of newExportedSecret, as conditions on an export and on its secret.
pub record IsNamed (e : SecretExport) : Type 0 where
  pub has_namespace : e.meta.namespace ≢ []
  pub has_name : e.meta.name ≢ []

pub record IsNamedAs (e : SecretExport) (s : Secret) : Type 0 where
  pub namespace : e.meta.namespace ≡ s.meta.namespace
  pub name : e.meta.name ≡ s.meta.name

export_guards-eq-value : (e : SecretExport) → IsNamed e → export_guards e ≡ value tt
unfolding export_guards
export_guards-eq-value e h = ground (arith, h.has_namespace, h.has_name)

new_exported_secret-eq-value :
    (e : SecretExport) (s : Secret)
    → IsNamed e
    → IsNamedAs e s
    → new_exported_secret e s ≡ value (entry_of e s)
unfolding new_exported_secret
new_exported_secret-eq-value e s h n =
    rw (export_guards-eq-value e h, new_exported_secret)
      (ground (
        arith,
        text_eq_iff e.meta.namespace s.meta.namespace,
        text_eq_iff e.meta.name s.meta.name,
        n.namespace,
        n.name,
      ))

-- An export with a name, and with the name of its secret, is recorded under its key without a
-- panic, and no other entry changes.
pub get-export :
    (e : SecretExport) (s : Secret) (cache : SecretExports) (k : Text)
    → IsNamed e
    → IsNamedAs e s
    → ((export e s cache).0 ≡ value tt)
      × (Maps.get k (export e s cache).1
          ≡ (if text_eq (key e) k then some (entry_of e s) else Maps.get k cache))
unfolding export
get-export e s cache k h n =
    rw (new_exported_secret-eq-value e s h n) (refl, get-put (key e) k (entry_of e s) cache)

-- An unexport of a named export removes the entry of its key without a panic, and no other.
pub get-unexport :
    (e : SecretExport) (cache : SecretExports) (k : Text)
    → IsNamed e
    → ((unexport e cache).0 ≡ value tt)
      × (Maps.get k (unexport e cache).1 ≡ (if text_eq (key e) k then none else Maps.get k cache))
unfolding unexport
get-unexport e cache k h = rw (export_guards-eq-value e h) (refl, get-delete (key e) k cache)
