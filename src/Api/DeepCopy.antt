-- ===== src/Api/DeepCopy.antt =====
-- api/v1alpha1/zz_generated.deepcopy.go, over the store.
use eks_ami_operator.Base.{◌≡◌, List, [], ◌∷◌, Option, none, some}
use mathlib.Core.List.{map}
use mathlib.Core.Option
use eks_ami_operator.Go.Time.{Time}
use eks_ami_operator.Api.{Spec, Condition}
use eks_ami_operator.Api.Store.{
  Slice, StatusRef, ObjectMeta, PolicyRef, ListMeta, PolicyListRef, Store, put, make_conditions,
  make_texts, make_items,
}

-- DeepCopyInto of the types of apimachinery.
pub record Copies : Type 0 where
  pub condition : Condition → Condition
  pub time : Time → Time
  pub object_meta : ObjectMeta → ObjectMeta
  pub list_meta : ListMeta → ListMeta

-- A deep copy is equal to what it copies.
pub record IsCopying (c : Copies) : Type 0 where
  pub condition-eq : (x : Condition) → c.condition x ≡ x
  pub time-eq : (x : Time) → c.time x ≡ x
  pub object_meta-eq : (x : ObjectMeta) → c.object_meta x ≡ x
  pub list_meta-eq : (x : ListMeta) → c.list_meta x ≡ x

-- runtime.Object, of the types of the package.
pub data ObjectRef : Type 0 where
  policy : PolicyRef → ObjectRef
  policy_list : PolicyListRef → ObjectRef

module _ (c : Copies) where
  -- The two branches of NodeGroupUpgradePolicyStatus.DeepCopyInto.
  abbrev pub copy_conditions : Slice → Store → Slice × Store
  copy_conditions none h = (none, h)
  copy_conditions (some a) h = make_conditions (map c.condition (h.conditions a)) h

  abbrev pub copy_texts : Slice → Store → Slice × Store
  copy_texts none h = (none, h)
  copy_texts (some a) h = make_texts (h.texts a) h

  -- DeepCopyInto of NodeGroupUpgradePolicyStatus, into `*out = *in`
  unfoldable pub copy_status : StatusRef → Store → StatusRef × Store
  copy_status s h =
      let (conditions, u) = copy_conditions s.conditions h in
      let (errors, v) = copy_texts s.update_errors u in
      (
        record s {
          conditions = conditions;
          last_checked = c.time s.last_checked;
          last_upgrade_attempt = c.time s.last_upgrade_attempt;
          last_scheduled_time = c.time s.last_scheduled_time;
          next_scheduled_time = c.time s.next_scheduled_time;
          update_errors = errors;
          last_progress_check = c.time s.last_progress_check;
        },
        v,
      )

  -- DeepCopyInto of NodeGroupUpgradePolicySpec
  abbrev pub copy_spec : Spec → Spec
  copy_spec s = s

  -- DeepCopyInto of NodeGroupUpgradePolicy
  unfoldable pub copy_policy : PolicyRef → Store → PolicyRef × Store
  copy_policy p h =
      let (status, u) = copy_status p.status h in
      (
        record {
          object_meta = c.object_meta p.object_meta;
          spec = copy_spec p.spec;
          status = status;
        },
        u,
      )

  -- DeepCopy of NodeGroupUpgradePolicy, on a pointer that may be nil
  abbrev pub deep_copy : Option PolicyRef → Store → Option PolicyRef × Store
  deep_copy none h = (none, h)
  deep_copy (some p) h = let (q, u) = copy_policy p h in (some q, u)

  -- DeepCopy of NodeGroupUpgradePolicySpec and of NodeGroupUpgradePolicyStatus
  abbrev pub deep_copy_spec : Option Spec → Option Spec
  deep_copy_spec none = none
  deep_copy_spec (some s) = some (copy_spec s)

  abbrev pub deep_copy_status : Option StatusRef → Store → Option StatusRef × Store
  deep_copy_status none h = (none, h)
  deep_copy_status (some s) h = let (t, u) = copy_status s h in (some t, u)

  -- The loop over the items.
  unfoldable pub copy_items : List PolicyRef → Store → List PolicyRef × Store
  copy_items [] h = ([], h)
  copy_items (p ∷ ps) h =
      let (q, u) = copy_policy p h in let (qs, v) = copy_items ps u in (q ∷ qs, v)

  -- make, and the loop, which fills the new array
  abbrev pub copy_slice : Slice → Store → Slice × Store
  copy_slice none h = (none, h)
  copy_slice (some a) h =
      let (b, u) = make_items [] h in
      let (qs, v) = copy_items (h.items a) u in (b, record v { items = put h.next qs v.items })

  -- DeepCopyInto of NodeGroupUpgradePolicyList
  unfoldable pub copy_list : PolicyListRef → Store → PolicyListRef × Store
  copy_list l h =
      let (items, u) = copy_slice l.items h in
      (record { list_meta = c.list_meta l.list_meta; items = items }, u)

  -- DeepCopy of NodeGroupUpgradePolicyList, on a pointer that may be nil
  abbrev pub deep_copy_list : Option PolicyListRef → Store → Option PolicyListRef × Store
  deep_copy_list none h = (none, h)
  deep_copy_list (some l) h = let (k, u) = copy_list l h in (some k, u)

  -- DeepCopyObject of the two types
  abbrev pub deep_copy_object : Option PolicyRef → Store → Option ObjectRef × Store
  deep_copy_object p h = let (q, u) = deep_copy p h in (Option.map ObjectRef.policy q, u)

  abbrev pub deep_copy_object_list : Option PolicyListRef → Store → Option ObjectRef × Store
  deep_copy_object_list l h =
      let (k, u) = deep_copy_list l h in (Option.map ObjectRef.policy_list k, u)
