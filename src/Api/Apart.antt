-- ===== src/Api/Apart.antt =====
-- Writes through the original of a deep copy of zz_generated.deepcopy.go do not reach the copy, and
-- those through the copy do not reach the original.
use eks_ami_operator.Base.{ℕ, ◌≤◌, ◌<◌, ◌≡◌, ◌∙◌, refl, ap, arith, List, [], ◌∷◌, none, some}
use mathlib.Core.List.{map}
use eks_ami_operator.Api.{Policy}
use eks_ami_operator.Api.Store.{
  Slice, PolicyRef, PolicyListRef, Store, put, make_items, held, policy_in,
}
use eks_ami_operator.Api.DeepCopy.{Copies, IsCopying, copy_items, copy_slice, copy_list}
use eks_ami_operator.Api.Copied.{
  Within, StatusWithin, AllWithin, AllWithin-wider, put_other, put_self, copied_items,
}

-- Two stores hold the same at the addresses of the range.
pub record Agree (lo hi : ℕ) (g v : Store) : Type 0 where
  pub conditions : (a : ℕ) → lo ≤ a → a < hi → g.conditions a ≡ v.conditions a
  pub texts : (a : ℕ) → lo ≤ a → a < hi → g.texts a ≡ v.texts a
  pub items : (a : ℕ) → lo ≤ a → a < hi → g.items a ≡ v.items a

Agree-refl : (lo hi : ℕ) (h : Store) → Agree lo hi h h
Agree-refl lo hi h = record {
  conditions = λ a p q. refl;
  texts = λ a p q. refl;
  items = λ a p q. refl;
}

Agree-trans : {lo hi : ℕ} {g u v : Store} → Agree lo hi g u → Agree lo hi u v → Agree lo hi g v
Agree-trans p q = record {
  conditions = λ a lo' hi'. p.conditions a lo' hi' ∙ q.conditions a lo' hi';
  texts = λ a lo' hi'. p.texts a lo' hi' ∙ q.texts a lo' hi';
  items = λ a lo' hi'. p.items a lo' hi' ∙ q.items a lo' hi';
}

held_agree :
    {A : Type 0} (lo hi : ℕ) (f f' : ℕ → List A) (s : Slice)
    → ((a : ℕ) → lo ≤ a → a < hi → f a ≡ f' a)
    → Within lo hi s
    → held f s ≡ held f' s
held_agree lo hi f f' none h w = refl
held_agree lo hi f f' (some a) h w = h a w.0 w.1

policy_in-Agree :
    {lo hi : ℕ} {g v : Store} (p : PolicyRef)
    → Agree lo hi g v
    → StatusWithin lo hi p.status
    → policy_in g p ≡ policy_in v p
policy_in-Agree {lo} {hi} {g} {v} p h w =
    rw
      (
        held_agree lo hi g.conditions v.conditions p.status.conditions h.conditions w.0,
        held_agree lo hi g.texts v.texts p.status.update_errors h.texts w.1,
      )
      refl

map-Agree :
    {lo hi : ℕ} {g v : Store} (ps : List PolicyRef)
    → Agree lo hi g v
    → AllWithin lo hi ps
    → map (policy_in g) ps ≡ map (policy_in v) ps
map-Agree [] h w = refl
map-Agree (p ∷ ps) h (x, w) = cc (policy_in-Agree p h x, map-Agree ps h w)

-- The value that a list stands for in a store.
abbrev pub items_in : Store → Slice → List Policy
items_in h s = map (policy_in h) (held h.items s)

-- The array of the items, and the slices of the items, lie in the range.
abbrev pub ItemsWithin : ℕ → ℕ → Store → Slice → Type 0
ItemsWithin lo hi h s = Within lo hi s × AllWithin lo hi (held h.items s)

items_in-Agree :
    {lo hi : ℕ} {g v : Store} (s : Slice)
    → Agree lo hi g v
    → ItemsWithin lo hi v s
    → items_in g s ≡ items_in v s
items_in-Agree {lo} {hi} {g} {v} s h (at, within) =
    ap (map (policy_in g)) (held_agree lo hi g.items v.items s h.items at)
    ∙ map-Agree (held v.items s) h within

module _ (c : Copies) (law : IsCopying c) where
  copied_slice :
      (s : Slice) (h : Store)
      → ItemsWithin 0 h.next h s
      → let (t, v) = copy_slice c s h in
        Agree 0 h.next v h × ItemsWithin h.next v.next v t × (items_in v t ≡ items_in h s)
  copied_slice none h w = (Agree-refl 0 h.next h, (tt, tt), refl)
  copied_slice (some a) h (at, within) =
      let u = (make_items [] h).1 in
      let (qs, v) = copy_items c (h.items a) u in
      let wider =
        AllWithin-wider 0 h.next 0 u.next (h.items a) (omega arith) (omega arith) within in
      let (e, all, same) = copied_items c law (h.items a) u wider in
      let v' : Store = record v { items = put h.next qs v.items } in
      let filled : v'.items h.next ≡ qs = put_self h.next qs v.items in
      let all' = AllWithin-wider u.next v.next h.next v.next qs (omega arith) (omega arith) all in
      (
        record {
          conditions = λ b lo hi. e.conditions b (omega arith);
          texts = λ b lo hi. e.texts b (omega arith);
          items = λ b lo hi.
              put_other h.next b qs v.items hi
              ∙ e.items b (omega arith)
              ∙ put_other h.next b [] h.items hi;
        },
        ((omega arith, omega (arith, e.grows)), rw filled all'),
        ap (map (policy_in v')) filled ∙ same,
      )

  -- A deep copy of a list stands for the same value, and goes on to, whatever is written to the arrays
  -- that there were before it. The original goes on to stand for its value, whatever is written to
  -- the arrays that there were not. The deep copies of apimachinery are taken to be equal to what
  -- they copy, and the original to point to arrays that there are.
  pub copy_list_apart :
      (l : PolicyListRef) (h g g' : Store)
      → ItemsWithin 0 h.next h l.items
      → Agree h.next (copy_list c l h).1.next g (copy_list c l h).1
      → Agree 0 h.next g' (copy_list c l h).1
      → ((copy_list c l h).0.list_meta ≡ l.list_meta)
        × (items_in g (copy_list c l h).0.items ≡ items_in h l.items)
        × (items_in g' l.items ≡ items_in h l.items)
  unfolding copy_list
  copy_list_apart l h g g' w new old =
      let (t, v) = copy_slice c l.items h in
      let (kept, within, same) = copied_slice l.items h w in
      (
        law.list_meta-eq l.list_meta,
        items_in-Agree t new within ∙ same,
        items_in-Agree l.items (Agree-trans old kept) w,
      )
