-- ===== src/Api/Copied.antt =====
-- A deep copy of zz_generated.deepcopy.go equals what it copies, and shares no array with it.
use eks_ami_operator.Base.{
  ℕ, ◌≤◌, ◌<◌, ◌≡◌, ◌∙◌, refl, arith, String, List, [], ◌∷◌, none, some, All,
}
use mathlib.Core.List.{map}
use eks_ami_operator.Api.{Condition}
use eks_ami_operator.Api.Store.{
  Slice, StatusRef, PolicyRef, Store, put, make_conditions, make_texts, held, status_in, policy_in,
}
use eks_ami_operator.Api.DeepCopy.{
  Copies, IsCopying, copy_conditions, copy_texts, copy_status, copy_policy, copy_items,
}

-- Nothing was written below the first free address.
pub record Extends (h u : Store) : Type 0 where
  pub grows : h.next ≤ u.next
  pub conditions : (a : ℕ) → a < h.next → u.conditions a ≡ h.conditions a
  pub texts : (a : ℕ) → a < h.next → u.texts a ≡ h.texts a
  pub items : (a : ℕ) → a < h.next → u.items a ≡ h.items a

Extends-refl : (h : Store) → Extends h h
Extends-refl h = record {
  grows = omega arith;
  conditions = λ a lt. refl;
  texts = λ a lt. refl;
  items = λ a lt. refl;
}

Extends-trans : {h u v : Store} → Extends h u → Extends u v → Extends h v
Extends-trans p q = record {
  grows = omega (arith, p.grows, q.grows);
  conditions = λ a lt. q.conditions a (omega (arith, p.grows)) ∙ p.conditions a lt;
  texts = λ a lt. q.texts a (omega (arith, p.grows)) ∙ p.texts a lt;
  items = λ a lt. q.items a (omega (arith, p.grows)) ∙ p.items a lt;
}

-- A slice is nil, or its address lies in the range.
abbrev pub Within : ℕ → ℕ → Slice → Type 0
Within lo hi none = Unit
Within lo hi (some a) = (lo ≤ a) × (a < hi)

pub put_other : {A : Type 0} (n a : ℕ) (x : A) (f : ℕ → A) → a < n → put n x f a ≡ f a
put_other n a x f lt = ground arith

pub put_self : {A : Type 0} (n : ℕ) (x : A) (f : ℕ → A) → put n x f n ≡ x
put_self n x f = ground arith

make_conditions-Extends : (xs : List Condition) (h : Store) → Extends h (make_conditions xs h).1
make_conditions-Extends xs h = record {
  grows = omega arith;
  conditions = λ a lt. put_other h.next a xs h.conditions lt;
  texts = λ a lt. refl;
  items = λ a lt. refl;
}

make_texts-Extends : (xs : List String) (h : Store) → Extends h (make_texts xs h).1
make_texts-Extends xs h = record {
  grows = omega arith;
  conditions = λ a lt. refl;
  texts = λ a lt. put_other h.next a xs h.texts lt;
  items = λ a lt. refl;
}

map_same {ℓ} : {A : Type ℓ} (f : A → A) → ((x : A) → f x ≡ x) → (xs : List A) → map f xs ≡ xs
map_same f same [] = refl
map_same f same (x ∷ xs) = cc (same x, map_same f same xs)

held_conditions :
    {h u : Store} (lo : ℕ) (t : Slice)
    → Extends h u
    → Within lo h.next t
    → held u.conditions t ≡ held h.conditions t
held_conditions lo none e w = refl
held_conditions lo (some a) e w = e.conditions a w.1

held_texts :
    {h u : Store} (lo : ℕ) (t : Slice)
    → Extends h u
    → Within lo h.next t
    → held u.texts t ≡ held h.texts t
held_texts lo none e w = refl
held_texts lo (some a) e w = e.texts a w.1

pub Within-wider :
    (lo hi lo' hi' : ℕ) (t : Slice) → lo' ≤ lo → hi ≤ hi' → Within lo hi t → Within lo' hi' t
Within-wider lo hi lo' hi' none p q w = tt
Within-wider lo hi lo' hi' (some a) p q w = (omega arith, omega arith)

-- The slices of a status lie in the range.
abbrev pub StatusWithin : ℕ → ℕ → StatusRef → Type 0
StatusWithin lo hi s = Within lo hi s.conditions × Within lo hi s.update_errors

policy_in-Extends :
    {h u : Store} (lo : ℕ) (p : PolicyRef)
    → Extends h u
    → StatusWithin lo h.next p.status
    → policy_in u p ≡ policy_in h p
policy_in-Extends lo p e w =
    rw (held_conditions lo p.status.conditions e w.0, held_texts lo p.status.update_errors e w.1)
      refl

-- The items of a list, one by one.
abbrev pub AllWithin : ℕ → ℕ → List PolicyRef → Type 0
AllWithin lo hi ps = All (λ p. StatusWithin lo hi p.status) ps

pub AllWithin-wider :
    (lo hi lo' hi' : ℕ) (ps : List PolicyRef)
    → lo' ≤ lo
    → hi ≤ hi'
    → AllWithin lo hi ps
    → AllWithin lo' hi' ps
AllWithin-wider lo hi lo' hi' [] l u w = tt
AllWithin-wider lo hi lo' hi' (p ∷ ps) l u ((x, y), w) = (
  (
    Within-wider lo hi lo' hi' p.status.conditions l u x,
    Within-wider lo hi lo' hi' p.status.update_errors l u y,
  ),
  AllWithin-wider lo hi lo' hi' ps l u w,
)

map-policy_in :
    {h u : Store} (lo : ℕ) (ps : List PolicyRef)
    → Extends h u
    → AllWithin lo h.next ps
    → map (policy_in u) ps ≡ map (policy_in h) ps
map-policy_in lo [] e w = refl
map-policy_in lo (p ∷ ps) e (x, w) = cc (policy_in-Extends lo p e x, map-policy_in lo ps e w)

module _ (c : Copies) (law : IsCopying c) where
  copied_conditions :
      (s : Slice) (h : Store)
      → Within 0 h.next s
      → let (t, u) = copy_conditions c s h in
        Extends h u × Within h.next u.next t × (held u.conditions t ≡ held h.conditions s)
  copied_conditions none h w = (Extends-refl h, tt, refl)
  copied_conditions (some a) h w =
      let xs = map c.condition (h.conditions a) in
      (
        make_conditions-Extends xs h,
        (omega arith, omega arith),
        put_self h.next xs h.conditions ∙ map_same c.condition law.condition-eq (h.conditions a),
      )

  copied_texts :
      (s : Slice) (h : Store)
      → Within 0 h.next s
      → let (t, u) = copy_texts c s h in
        Extends h u × Within h.next u.next t × (held u.texts t ≡ held h.texts s)
  copied_texts none h w = (Extends-refl h, tt, refl)
  copied_texts (some a) h w = (
    make_texts-Extends (h.texts a) h,
    (omega arith, omega arith),
    put_self h.next (h.texts a) h.texts,
  )

  -- The copy of a status: it lies in new addresses, and stands for the same value.
  copied_status :
      (s : StatusRef) (h : Store)
      → StatusWithin 0 h.next s
      → let (t, v) = copy_status c s h in
        Extends h v × StatusWithin h.next v.next t × (status_in v t ≡ status_in h s)
  unfolding copy_status
  copied_status s h w =
      let (x, u) = copy_conditions c s.conditions h in
      let (y, v) = copy_texts c s.update_errors u in
      let (e, x_in, x_same) = copied_conditions s.conditions h w.0 in
      let errors_in = Within-wider 0 h.next 0 u.next s.update_errors (omega arith) e.grows w.1 in
      let (d, y_in, y_same) = copied_texts s.update_errors u errors_in in
      let conditions_same = held_conditions h.next x d x_in ∙ x_same in
      let errors_same = y_same ∙ held_texts 0 s.update_errors e w.1 in
      (
        Extends-trans e d,
        (
          Within-wider h.next u.next h.next v.next x (omega arith) d.grows x_in,
          Within-wider u.next v.next h.next v.next y e.grows (omega arith) y_in,
        ),
        rw
            (
              conditions_same,
              errors_same,
              law.time-eq s.last_checked,
              law.time-eq s.last_upgrade_attempt,
              law.time-eq s.last_scheduled_time,
              law.time-eq s.next_scheduled_time,
              law.time-eq s.last_progress_check,
            )
            refl,
      )

  pub copied_policy :
      (p : PolicyRef) (h : Store)
      → StatusWithin 0 h.next p.status
      → let (q, v) = copy_policy c p h in
        Extends h v × StatusWithin h.next v.next q.status × (policy_in v q ≡ policy_in h p)
  unfolding copy_policy
  copied_policy p h w =
      let (e, within, same) = copied_status p.status h w in
      (e, within, rw (law.object_meta-eq, same) refl)

  pub copied_items :
      (ps : List PolicyRef) (h : Store)
      → AllWithin 0 h.next ps
      → let (qs, v) = copy_items c ps h in
        Extends h v × AllWithin h.next v.next qs × (map (policy_in v) qs ≡ map (policy_in h) ps)
  unfolding copy_items
  copied_items [] h w = (Extends-refl h, tt, refl)
  copied_items (p ∷ ps) h (x, w) =
      let (q, u) = copy_policy c p h in
      let (qs, v) = copy_items c ps u in
      let (e, within, same) = copied_policy p h x in
      let (d, all, sames) =
        copied_items ps u (AllWithin-wider 0 h.next 0 u.next ps (omega arith) e.grows w) in
      let (cs, ts) = within in
      (
        Extends-trans e d,
        (
          (
            Within-wider h.next u.next h.next v.next q.status.conditions (omega arith) d.grows cs,
            Within-wider h.next u.next h.next v.next q.status.update_errors (omega arith) d.grows
                ts,
          ),
          AllWithin-wider u.next v.next h.next v.next qs e.grows (omega arith) all,
        ),
        cc (policy_in-Extends h.next q d within, same, sames, map-policy_in 0 ps e w),
      )
