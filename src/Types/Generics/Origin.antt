-- ===== src/Types/Generics/Origin.antt =====
-- Where the entries come from that `unify_collect` adds to its table.
use yabumi.Common.{
  ◌==◌, Bool, true, false, ◌&&◌, some, if◌then◌else◌, ◌≡◌, ◌⊎◌, refl, inl, inr, arith, Text,
  text_eq, text_eq_iff, Option-cases, Bool-cases, &&-true, some_inj,
}
use yabumi.Common.TextMap.{get, insert, get-insert}
use yabumi.Types.Effects.{EffectSet}
use yabumi.Types.Ty.{Ty, Tys, type_var, unknown, count}
use yabumi.Types.Generics.{Subst, and_then, collect_var, unify_collect, unify_collect_all}

abbrev pub is_known : Ty → Bool
is_known unknown = false
is_known (type_var m) = false
is_known _ = true

-- In the declared type the variable stands where the concrete type has the known type `t`.
mutual
  pub data Meets (n : Text) (t : Ty) : Ty → Ty → Type 0 where
    here : is_known t ≡ true → Meets n t (type_var n) t
    list : {a b : Ty} → Meets n t a b → Meets n t (Ty.list a) (Ty.list b)
    set : {a b : Ty} → Meets n t a b → Meets n t (Ty.set a) (Ty.set b)
    key : {a b c d : Ty} → Meets n t a b → Meets n t (Ty.dict a c) (Ty.dict b d)
    value : {a b c d : Ty} → Meets n t c d → Meets n t (Ty.dict a c) (Ty.dict b d)
    tuple : {xs ys : Tys} → MeetsAny n t xs ys → Meets n t (Ty.tuple xs) (Ty.tuple ys)
    named :
        {m : Text} {xs ys : Tys} → MeetsAny n t xs ys → Meets n t (Ty.named m xs) (Ty.named m ys)
    param :
        {xs ys : Tys} {e d : EffectSet} {a b : Ty}
        → MeetsAny n t xs ys
        → Meets n t (Ty.function xs e a) (Ty.function ys d b)
    result :
        {xs ys : Tys} {e d : EffectSet} {a b : Ty}
        → Meets n t a b
        → Meets n t (Ty.function xs e a) (Ty.function ys d b)

  pub data MeetsAny (n : Text) (t : Ty) : Tys → Tys → Type 0 where
    head : {x y : Ty} {xs ys : Tys} → Meets n t x y → MeetsAny n t (Tys.cons x xs) (Tys.cons y ys)
    tail :
        {x y : Ty} {xs ys : Tys} → MeetsAny n t xs ys → MeetsAny n t (Tys.cons x xs) (Tys.cons y ys)

-- An entry of the table after the call was there, or the property holds of it.
pub record Adds (Q : Text → Ty → Type 0) (s : Subst) (out : Bool × Subst) : Type 0 where
  pub origin : (n : Text) (t : Ty) → get n out.1 ≡ some t → (get n s ≡ some t) ⊎ Q n t

Adds-map :
    {P Q : Text → Ty → Type 0} {s : Subst} {out : Bool × Subst}
    → ((n : Text) (t : Ty) → P n t → Q n t)
    → Adds P s out
    → Adds Q s out
Adds-map f h = record {
  origin = λ n t g. elim (h.origin n t g) [ inl e ↦ inl e | inr p ↦ inr (f n t p) ];
}

Adds-and_then :
    {Q : Text → Ty → Type 0} {s : Subst} (out : Bool × Subst) {k : Subst → Bool × Subst}
    → Adds Q s out
    → ((s' : Subst) → Adds Q s' (k s'))
    → Adds Q s (and_then out k)
Adds-and_then (true, s₁) h then_k = record {
  origin = λ n t g. elim ((then_k s₁).origin n t g) [ inl e ↦ h.origin n t e | inr q ↦ inr q ];
}
Adds-and_then (false, s₁) h then_k = record { origin = h.origin }

unchanged : {Q : Text → Ty → Type 0} (b : Bool) (s : Subst) → Adds Q s (b, s)
unchanged b s = record { origin = λ n t g. inl g }

Adds-if :
    {Q : Text → Ty → Type 0} {s : Subst} (b : Bool) {out : Bool × Subst}
    → (b ≡ true → Adds Q s out)
    → Adds Q s (if b then out else (false, s))
Adds-if true h = h refl
Adds-if {s} false h = unchanged false s

collect_var-Adds :
    (m : Text) (c : Ty) (s : Subst)
    → is_known c ≡ true
    → Adds (λ n t. Meets n t (type_var m) c) s (collect_var m c s)
unfolding collect_var
collect_var-Adds m c s known = elim (Option-cases (get m s)) [
  | inr (u, e) ↦ rw (e, collect_var) (unchanged _ s)
  | inl e ↦ rw (e, collect_var) (record { origin = inserted })
]
  where
    inserted :
        (n : Text) (t : Ty)
        → get n (insert m c s) ≡ some t
        → (get n s ≡ some t) ⊎ Meets n t (type_var m) c
    inserted n t g = elim (Bool-cases (text_eq m n)) [
      | inl q ↦
          let there : some c ≡ some t = ground (arith, get-insert m n c s) in
          let e : c ≡ t = some_inj there in
          let e' : m ≡ n = (text_eq_iff m n).0 q in inr (rw (← e, ← e') (Meets.here known))
      | inr q ↦ inl (ground (arith, get-insert m n c s))
    ]

mutual
  unfolding unify_collect

  pub unify_collect-Adds :
      (p c : Ty) (s : Subst) → Adds (λ n t. Meets n t p c) s (unify_collect p c s)
  unify_collect-Adds p unknown s = unchanged true s
  unify_collect-Adds p (type_var m) s = unchanged true s
  unify_collect-Adds (type_var n) c s = collect_var-Adds n c s refl
  unify_collect-Adds (Ty.list a) (Ty.list b) s =
      Adds-map (λ _ _. Meets.list) (unify_collect-Adds a b s)
  unify_collect-Adds (Ty.set a) (Ty.set b) s =
      Adds-map (λ _ _. Meets.set) (unify_collect-Adds a b s)
  unify_collect-Adds (Ty.dict ak av) (Ty.dict bk bv) s =
      Adds-and_then _ (Adds-map (λ _ _. Meets.key) (unify_collect-Adds ak bk s))
        (λ s'. Adds-map (λ _ _. Meets.value) (unify_collect-Adds av bv s'))
  unify_collect-Adds (Ty.tuple xs) (Ty.tuple ys) s =
      Adds-if (count xs == count ys)
        (λ _. Adds-map (λ _ _. Meets.tuple) (unify_collect_all-Adds xs ys s))
  unify_collect-Adds (Ty.named pn xs) (Ty.named cn ys) s =
      Adds-if (text_eq pn cn && count xs == count ys) λ e.
        Adds-map
          (λ _ _ f. rw ((text_eq_iff pn cn).0 (&&-true (text_eq pn cn) _ e).0) (Meets.named f))
          (unify_collect_all-Adds xs ys s)
  unify_collect-Adds (Ty.function pp pe pr) (Ty.function cp ce cr) s =
      Adds-if (count pp == count cp) λ _.
        Adds-and_then _ (Adds-map (λ _ _. Meets.param) (unify_collect_all-Adds pp cp s))
          (λ s'. Adds-map (λ _ _. Meets.result) (unify_collect-Adds pr cr s'))
  unify_collect-Adds _ _ s = unchanged _ s

  unify_collect_all-Adds :
      (ps cs : Tys) (s : Subst) → Adds (λ n t. MeetsAny n t ps cs) s (unify_collect_all ps cs s)
  unify_collect_all-Adds Tys.nil Tys.nil s = unchanged true s
  unify_collect_all-Adds (Tys.cons x xs) (Tys.cons y ys) s =
      Adds-and_then _ (Adds-map (λ _ _. MeetsAny.head) (unify_collect-Adds x y s))
        (λ s'. Adds-map (λ _ _. MeetsAny.tail) (unify_collect_all-Adds xs ys s'))
  unify_collect_all-Adds _ _ s = unchanged false s
