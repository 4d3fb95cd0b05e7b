-- ===== src/Api/Store.antt =====
-- The store that the pointers and slices of api/v1alpha1 point into, as far as the deep copies of
-- zz_generated.deepcopy.go follow them. A slice is nil or the address of its array, all of it.
-- The TypeMeta of an object, which is two texts, is left out.
use eks_ami_operator.Base.{ℕ, suc, ◌==◌, if◌then◌else◌, String, List, [], Option, none, some}
use eks_ami_operator.Go.Time.{Time}
use eks_ami_operator.Api.{Spec, Condition, Status, Policy}

abbrev pub Slice : Type 0
Slice = Option ℕ

-- NodeGroupUpgradePolicyStatus
pub record StatusRef : Type 0 where
  pub conditions : Slice
  pub last_checked : Time
  pub last_upgrade_attempt : Time
  pub current_ami : String
  pub target_ami : String
  pub upgrade_status : String
  pub last_scheduled_time : Time
  pub next_scheduled_time : Time
  pub update_id : String
  pub update_status : String
  pub update_errors : Slice
  pub last_progress_check : Time

-- metav1.ObjectMeta, the fields that the sources read; what it points to is the library's.
pub record ObjectMeta : Type 0 where
  pub name : String
  pub deletion_timestamp : Option Time
  pub finalizers : List String

-- NodeGroupUpgradePolicy
pub record PolicyRef : Type 0 where
  pub object_meta : ObjectMeta
  pub spec : Spec
  pub status : StatusRef

-- metav1.ListMeta, one of its fields.
pub record ListMeta : Type 0 where
  pub resource_version : String

-- NodeGroupUpgradePolicyList
pub record PolicyListRef : Type 0 where
  pub list_meta : ListMeta
  pub items : Slice

-- The arrays by their addresses; `next` is the first address that was never given out.
pub record Store : Type 0 where
  pub next : ℕ
  pub conditions : ℕ → List Condition
  pub texts : ℕ → List String
  pub items : ℕ → List PolicyRef

abbrev pub put {ℓ} : {A : Type ℓ} → ℕ → A → (ℕ → A) → ℕ → A
put a x f b = if a == b then x else f b

abbrev pub make_conditions : List Condition → Store → Slice × Store
make_conditions xs h =
    (some h.next, record h { next = suc h.next; conditions = put h.next xs h.conditions })

abbrev pub make_texts : List String → Store → Slice × Store
make_texts xs h = (some h.next, record h { next = suc h.next; texts = put h.next xs h.texts })

abbrev pub make_items : List PolicyRef → Store → Slice × Store
make_items xs h = (some h.next, record h { next = suc h.next; items = put h.next xs h.items })

-- What a slice holds.
abbrev pub held {ℓ} : {A : Type ℓ} → (ℕ → List A) → Slice → List A
held f none = []
held f (some a) = f a

-- The value that a status, and a policy, stands for in a store.
abbrev pub status_in : Store → StatusRef → Status
status_in h s = record {
  conditions = held h.conditions s.conditions;
  last_checked = s.last_checked;
  last_upgrade_attempt = s.last_upgrade_attempt;
  current_ami = s.current_ami;
  target_ami = s.target_ami;
  upgrade_status = s.upgrade_status;
  last_scheduled_time = s.last_scheduled_time;
  next_scheduled_time = s.next_scheduled_time;
  update_id = s.update_id;
  update_status = s.update_status;
  update_errors = held h.texts s.update_errors;
  last_progress_check = s.last_progress_check;
}

abbrev pub policy_in : Store → PolicyRef → Policy
policy_in h p = record {
  name = p.object_meta.name;
  deletion_timestamp = p.object_meta.deletion_timestamp;
  finalizers = p.object_meta.finalizers;
  spec = p.spec;
  status = status_in h p.status;
}
