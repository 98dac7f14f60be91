-- ===== src/Tracker.antt =====
-- Tracker of pkg/tracker/tracker.go: which objects track which. The mutex makes each method one step
-- on the map.
pub mod Relation
use secretgen_controller.Common.{
  Bool, true, false, Option, none, some, List, [], ◌∷◌, if◌then◌else◌,
}
use secretgen_controller.Common.Maps
use secretgen_controller.Common.Maps.{Map}
use secretgen_controller.Api.{NamespacedName, name_eq_instance}

-- map[types.NamespacedName]struct{}.
abbrev pub NameSet : Type 0
NameSet = Map NamespacedName (Unit {0})

abbrev pub Tracker : Type 0
Tracker = Map NamespacedName NameSet

abbrev pub new_tracker : Tracker
new_tracker = []

abbrev pub set_of : Option NameSet → NameSet
set_of none = []
set_of (some set) = set

unfoldable pub put_names : List NamespacedName → NameSet → NameSet
put_names [] set = set
put_names (t ∷ tracked) set = put_names tracked (Maps.put t tt set)

unfoldable pub track : NamespacedName → List NamespacedName → Tracker → Tracker
unfolding put_names
track tracking tracked tracker =
    Maps.put tracking (put_names tracked (set_of (Maps.get tracking tracker))) tracker

unfoldable pub untrack_all : NamespacedName → Tracker → Tracker
untrack_all tracking tracker = Maps.delete tracking tracker

abbrev pub is_found : Option (Unit {0}) → Bool
is_found none = false
is_found (some _) = true

-- The tracking objects, in the order in which the map is iterated.
unfoldable pub get_tracking : NamespacedName → Tracker → List NamespacedName
get_tracking tracked [] = []
get_tracking tracked ((tracking, set) ∷ tracker) =
    let rest = get_tracking tracked tracker in
    if is_found (Maps.get tracked set) then tracking ∷ rest else rest
