-- ===== src/Sharing/Wildcards.antt =====
-- pkg/sharing/namespace_wildcard_exclusions.go: namespaces that `*` does not reach, and the events of
-- namespaces that are worth a reconcile.
pub mod Excluded
use secretgen_controller.Common.{
  Text, codes, text_eq_instance, Bool, true, false, not, Option, none, some, List, [], ◌++◌,
  if◌then◌else◌,
}
use secretgen_controller.Common.Maps
use secretgen_controller.Api.{NamespacedName, Namespace, entries}
use secretgen_controller.Kube.{Client, Fetched, found, failed}

abbrev pub exclusion_ann_key : Text
exclusion_ann_key = codes "secretgen.carvel.dev/excluded-from-wildcard-matching"

is_some : Option Text → Bool
is_some none = false
is_some (some v) = true

unfoldable pub ns_has_exclusion_annotation : Namespace → Bool
unfolding is_some
ns_has_exclusion_annotation ns = is_some (Maps.get exclusion_ann_key (entries ns.meta.annotations))

-- A namespace that cannot be fetched is logged, and is not excluded.
unfoldable pub exclusion_of : Fetched Namespace → Bool
unfolding ns_has_exclusion_annotation
exclusion_of (failed err) = false
exclusion_of (found ns) = ns_has_exclusion_annotation ns

-- makeNamespaceWildcardExclusionCheck.
unfoldable pub namespace_wildcard_exclusion_check :
    {W : Type 0} → Client W Namespace → W → Text → Bool
unfolding exclusion_of
namespace_wildcard_exclusion_check namespaces world ns_name =
    exclusion_of (namespaces.get (record { namespace = []; name = ns_name }) world).0

same : Bool → Bool → Bool
same true b = b
same false b = not b

-- Requests are added to the work queue by Update, for a namespace whose exclusion changed; `none`
-- stands for an object that is no Namespace. `to_requests` maps the new namespace.
unfoldable pub update_namespace :
    Option Namespace
    → Option Namespace
    → List NamespacedName
    → List NamespacedName
    → List NamespacedName
unfolding same
update_namespace (some old) (some new) requests queue =
    if same (ns_has_exclusion_annotation old) (ns_has_exclusion_annotation new)
    then queue
    else queue ++ requests
update_namespace _ _ requests queue = queue ++ requests
