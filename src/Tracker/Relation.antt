-- ===== src/Tracker/Relation.antt =====
-- A tracker as a relation between names, and the operations on that relation.
use secretgen_controller.Common.{
  Bool, false, ◌||◌, List, [], ◌∷◌, ◌≡◌, refl, ◌∙◌, subst, arith, if◌then◌else◌, Bool-cases, inl,
  inr,
}
use secretgen_controller.Common.Maps
use secretgen_controller.Api.{NamespacedName, name_eq, name_eq_iff, name_eq_instance}
use secretgen_controller.Tracker.{
  NameSet, Tracker, new_tracker, set_of, put_names, track, untrack_all, is_found, get_tracking,
}

abbrev pub Relation : Type 0
Relation = NamespacedName → NamespacedName → Bool

pub data Operation : Type 0 where
  tracks : NamespacedName → List NamespacedName → Operation
  untracks : NamespacedName → Operation

abbrev pub is_in : NamespacedName → List NamespacedName → Bool
is_in x [] = false
is_in x (y ∷ ys) = name_eq y x || is_in x ys

abbrev pub apply_one : Operation → Relation → Relation
apply_one (tracks a bs) r x y = if name_eq a x then r x y || is_in y bs else r x y
apply_one (untracks a) r x y = if name_eq a x then false else r x y

abbrev pub run_one : Operation → Tracker → Tracker
run_one (tracks a bs) t = track a bs t
run_one (untracks a) t = untrack_all a t

-- The operations on a relation, and on a tracker, from the first to the last.
abbrev pub apply_all : List Operation → Relation → Relation
apply_all [] r = r
apply_all (o ∷ os) r = apply_all os (apply_one o r)

abbrev pub run_all : List Operation → Tracker → Tracker
run_all [] t = t
run_all (o ∷ os) t = run_all os (run_one o t)

abbrev pub relation_of : Tracker → Relation
relation_of t x y = is_found (Maps.get y (set_of (Maps.get x t)))

put_names_lem :
    (y : NamespacedName) (bs : List NamespacedName) (set : NameSet)
    → is_found (Maps.get y (put_names bs set)) ≡ is_found (Maps.get y set) || is_in y bs
unfolding put_names
put_names_lem y [] set = ground arith
put_names_lem y (b ∷ bs) set =
    ground (arith, put_names_lem y bs (Maps.put b tt set), Maps.get-put b y tt set)

pub relation_of-run_one :
    (o : Operation) (t : Tracker) (x y : NamespacedName)
    → relation_of (run_one o t) x y ≡ apply_one o (relation_of t) x y
unfolding track untrack_all Maps.get
relation_of-run_one (tracks a bs) t x y = ground (
  arith,
  Maps.get-put a x (put_names bs (set_of (Maps.get a t))) t,
  put_names_lem y bs (set_of (Maps.get a t)),
  name_eq_iff a x,
)
relation_of-run_one (untracks a) t x y = elim (Bool-cases (name_eq a x)) [
  | inl same ↦ rw (Maps.get-delete a x t, same) refl
  | inr other ↦ rw (Maps.get-delete a x t, other) refl
]

pub run_one-IsMap : (o : Operation) (t : Tracker) → Maps.IsMap t → Maps.IsMap (run_one o t)
unfolding track untrack_all
run_one-IsMap (tracks a bs) t h = Maps.put-IsMap a (put_names bs (set_of (Maps.get a t))) t h
run_one-IsMap (untracks a) t h = Maps.delete-IsMap a t h

pub run_all-IsMap : (os : List Operation) (t : Tracker) → Maps.IsMap t → Maps.IsMap (run_all os t)
run_all-IsMap [] t h = h
run_all-IsMap (o ∷ os) t h = run_all-IsMap os (run_one o t) (run_one-IsMap o t h)

apply_one-cong :
    (o : Operation) (r q : Relation)
    → ((x y : NamespacedName) → r x y ≡ q x y)
    → (x y : NamespacedName) → apply_one o r x y ≡ apply_one o q x y
apply_one-cong (tracks a bs) r q h x y = ground (arith, h x y)
apply_one-cong (untracks a) r q h x y = ground (arith, h x y)

apply_all-cong :
    (os : List Operation) (r q : Relation)
    → ((x y : NamespacedName) → r x y ≡ q x y)
    → (x y : NamespacedName) → apply_all os r x y ≡ apply_all os q x y
apply_all-cong [] r q h x y = h x y
apply_all-cong (o ∷ os) r q h x y =
    apply_all-cong os (apply_one o r) (apply_one o q) (apply_one-cong o r q h) x y

relation_of-run_all :
    (os : List Operation) (t : Tracker) (x y : NamespacedName)
    → relation_of (run_all os t) x y ≡ apply_all os (relation_of t) x y
relation_of-run_all [] t x y = refl
relation_of-run_all (o ∷ os) t x y =
    relation_of-run_all os (run_one o t) x y
    ∙ apply_all-cong os (relation_of (run_one o t)) (apply_one o (relation_of t))
        (relation_of-run_one o t) x y

get_tracking-Absent :
    (x y : NamespacedName) (t : Tracker) → Maps.Absent x t → is_in x (get_tracking y t) ≡ false
unfolding get_tracking
get_tracking-Absent x y [] h = refl
get_tracking-Absent x y ((a, set) ∷ t) h = ground (arith, get_tracking-Absent x y t h.1, h.0)

pub get_tracking_lem :
    (x y : NamespacedName) (t : Tracker)
    → Maps.IsMap t
    → is_in x (get_tracking y t) ≡ relation_of t x y
unfolding get_tracking Maps.get
get_tracking_lem x y [] h = refl
get_tracking_lem x y ((a, set) ∷ t) h = elim (Bool-cases (name_eq a x)) [
  | inl same ↦ rw same (
      ground (
        arith,
        same,
        get_tracking-Absent x y t (subst (λ k. Maps.Absent k t) ((name_eq_iff a x).0 same) h.0),
      ))
  | inr other ↦ rw other (ground (arith, other, get_tracking_lem x y t h.1))
]

-- A tracker refines a relation: after any operations on a new tracker, GetTracking of an object lists
-- exactly the objects that the same operations on the empty relation relate to it.
pub get_tracking-run_all :
    (os : List Operation) (x y : NamespacedName)
    → is_in x (get_tracking y (run_all os new_tracker)) ≡ apply_all os (λ _ _. false) x y
unfolding Maps.get
get_tracking-run_all os x y =
    get_tracking_lem x y (run_all os new_tracker) (run_all-IsMap os new_tracker tt)
    ∙ relation_of-run_all os new_tracker x y
    ∙ apply_all-cong os (relation_of new_tracker) (λ _ _. false) (λ _ _. refl) x y
