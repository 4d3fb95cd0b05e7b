-- ===== src/Examples/Copying.antt =====
-- Tests of the deep copies.
use eks_ami_operator.Base.{ℕ, ◌≡◌, refl, arith, [], ◌∷◌, none, some}
use eks_ami_operator.Go.Time.{zero_time}
use eks_ami_operator.Api.Store.{StatusRef, PolicyRef, PolicyListRef, Store, put}
use eks_ami_operator.Api.DeepCopy.{
  Copies, IsCopying, copy_list, copy_items, copy_policy, copy_status,
}
use eks_ami_operator.Api.Apart.{Agree, items_in, copy_list_apart}
use eks_ami_operator.Examples.{spec}

abbrev copies : Copies
copies = record { condition = λ x. x; time = λ x. x; object_meta = λ x. x; list_meta = λ x. x }

copies-IsCopying : IsCopying copies
copies-IsCopying = record {
  condition-eq = λ x. refl;
  time-eq = λ x. refl;
  object_meta-eq = λ x. refl;
  list_meta-eq = λ x. refl;
}

-- One policy, without conditions and with the errors at address 0; the items are at address 1.
abbrev stored_status : StatusRef
stored_status = record {
  conditions = none;
  last_checked = zero_time;
  last_upgrade_attempt = zero_time;
  current_ami = "";
  target_ami = "";
  upgrade_status = "Failed";
  last_scheduled_time = zero_time;
  next_scheduled_time = zero_time;
  update_id = "u";
  update_status = "Failed";
  update_errors = some 0;
  last_progress_check = zero_time;
}

abbrev stored : PolicyRef
stored = record {
  object_meta = record { name = "p"; deletion_timestamp = none; finalizers = [] };
  spec = spec;
  status = stored_status;
}

abbrev store : Store
store = record {
  next = 2;
  conditions = λ a. [];
  texts = λ a. "PodEvictionFailure: pods" ∷ [];
  items = λ a. stored ∷ [];
}

abbrev listed : PolicyListRef
listed = record { list_meta = record { resource_version = "7" }; items = some 1 }

abbrev copied : Store
copied = (copy_list copies listed store).1

-- The new items are at address 2, and the new errors at address 3.
next_free : copied.next ≡ 4
unfolding copy_list copy_items copy_policy copy_status
next_free = refl

-- The errors of the original are overwritten, or those of the copy.
abbrev spoiled : ℕ → Store
spoiled b = record copied { texts = put b ("overwritten" ∷ []) copied.texts }

old_spoiled : Agree 2 copied.next (spoiled 0) copied
old_spoiled = record {
  conditions = λ a lo hi. refl;
  texts = λ a lo hi. ground arith;
  items = λ a lo hi. refl;
}

new_spoiled : Agree 0 2 (spoiled 3) copied
new_spoiled = record {
  conditions = λ a lo hi. refl;
  texts = λ a lo hi. ground arith;
  items = λ a lo hi. refl;
}

copy_list_apart_example :
    ((copy_list copies listed store).0.list_meta ≡ listed.list_meta)
    × (items_in (spoiled 0) (copy_list copies listed store).0.items ≡ items_in store listed.items)
    × (items_in (spoiled 3) listed.items ≡ items_in store listed.items)
copy_list_apart_example =
    copy_list_apart copies copies-IsCopying listed store (spoiled 0) (spoiled 3)
      ((omega arith, omega arith), ((tt, (omega arith, omega arith)), tt)) old_spoiled new_spoiled
