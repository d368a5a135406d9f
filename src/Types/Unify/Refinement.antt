-- ===== src/Types/Unify/Refinement.antt =====
-- `unify` computes the least common refinement of two types: the order in which a type variable or
-- the placeholder stands for any type.
use yabumi.Common.{
  some, ◌>>=◌, >>=-eq-some, some_inj, Text, text_eq, text_eq_iff, text_eq_refl, ◌≡◌, refl, inl, inr,
  Bool-cases,
}
use yabumi.Types.Effects.{EffectSet, union}
use yabumi.Types.Ty.{Ty, Tys, type_var, unknown}
use yabumi.Types.Unify.{unify, unify_all}

-- The first type is the second with its type variables and placeholders filled in, effects aside.
mutual
  pub data Refines : Ty → Ty → Type 0 where
    any : {t : Ty} → Refines t unknown
    var : {t : Ty} {n : Text} → Refines t (type_var n)
    int : Refines Ty.int Ty.int
    float : Refines Ty.float Ty.float
    bool : Refines Ty.bool Ty.bool
    str : Refines Ty.str Ty.str
    void : Refines Ty.void Ty.void
    list : {t a : Ty} → Refines t a → Refines (Ty.list t) (Ty.list a)
    set : {t a : Ty} → Refines t a → Refines (Ty.set t) (Ty.set a)
    dict : {k v a b : Ty} → Refines k a → Refines v b → Refines (Ty.dict k v) (Ty.dict a b)
    tuple : {ts as' : Tys} → RefinesAll ts as' → Refines (Ty.tuple ts) (Ty.tuple as')
    named : {n : Text} {ts as' : Tys} → RefinesAll ts as' → Refines (Ty.named n ts) (Ty.named n as')
    function :
        {ps as' : Tys} {e d : EffectSet} {r b : Ty}
        → RefinesAll ps as'
        → Refines r b
        → Refines (Ty.function ps e r) (Ty.function as' d b)

  pub data RefinesAll : Tys → Tys → Type 0 where
    nil : RefinesAll Tys.nil Tys.nil
    cons :
        {t a : Ty} {ts as' : Tys}
        → Refines t a
        → RefinesAll ts as'
        → RefinesAll (Tys.cons t ts) (Tys.cons a as')

mutual
  pub Refines-self : (a : Ty) → Refines a a
  Refines-self Ty.int = Refines.int
  Refines-self Ty.float = Refines.float
  Refines-self Ty.bool = Refines.bool
  Refines-self Ty.str = Refines.str
  Refines-self Ty.void = Refines.void
  Refines-self (Ty.list a) = Refines.list (Refines-self a)
  Refines-self (Ty.dict a b) = Refines.dict (Refines-self a) (Refines-self b)
  Refines-self (Ty.set a) = Refines.set (Refines-self a)
  Refines-self (Ty.tuple ts) = Refines.tuple (RefinesAll-self ts)
  Refines-self (Ty.named n ts) = Refines.named (RefinesAll-self ts)
  Refines-self (Ty.function ps e r) = Refines.function (RefinesAll-self ps) (Refines-self r)
  Refines-self (type_var n) = Refines.var
  Refines-self unknown = Refines.any

  RefinesAll-self : (as' : Tys) → RefinesAll as' as'
  RefinesAll-self Tys.nil = RefinesAll.nil
  RefinesAll-self (Tys.cons a as') = RefinesAll.cons (Refines-self a) (RefinesAll-self as')

-- Both refinements of a type that unification gives.
abbrev Both : Ty → Ty → Ty → Type 0
Both r a b = Refines r a × Refines r b

abbrev BothAll : Tys → Tys → Tys → Type 0
BothAll r a b = RefinesAll r a × RefinesAll r b

wild : (a : Ty) {b r : Ty} → ((t : Ty) → Refines t b) → some a ≡ some r → Both r a b
wild a anything h = rw (← some_inj h) (Refines-self a, anything a)

mutual
  unfolding unify

  unify-Both : (a b : Ty) {r : Ty} → unify a b ≡ some r → Both r a b
  unify-Both unknown b h = rw (← some_inj h) (Refines.any, Refines-self b)
  unify-Both (type_var n) b h = rw (← some_inj h) (Refines.var, Refines-self b)
  unify-Both a unknown h = wild a (λ t. Refines.any) h
  unify-Both a (type_var n) h = wild a (λ t. Refines.var) h
  unify-Both Ty.int Ty.int h = rw (← some_inj h) (Refines.int, Refines.int)
  unify-Both Ty.float Ty.float h = rw (← some_inj h) (Refines.float, Refines.float)
  unify-Both Ty.bool Ty.bool h = rw (← some_inj h) (Refines.bool, Refines.bool)
  unify-Both Ty.str Ty.str h = rw (← some_inj h) (Refines.str, Refines.str)
  unify-Both Ty.void Ty.void h = rw (← some_inj h) (Refines.void, Refines.void)
  unify-Both (Ty.list x) (Ty.list y) h =
      let (t, e, q) = >>=-eq-some (unify x y) (λ t. some (Ty.list t)) h in
      let both = unify-Both x y e in rw (← some_inj q) (Refines.list both.0, Refines.list both.1)
  unify-Both (Ty.set x) (Ty.set y) h =
      let (t, e, q) = >>=-eq-some (unify x y) (λ t. some (Ty.set t)) h in
      let both = unify-Both x y e in rw (← some_inj q) (Refines.set both.0, Refines.set both.1)
  unify-Both (Ty.dict xk xv) (Ty.dict yk yv) h =
      let (k, e, q) = >>=-eq-some (unify xk yk) (λ k. unify xv yv >>= λ v. some (Ty.dict k v)) h in
      let (v, e', q') = >>=-eq-some (unify xv yv) (λ v. some (Ty.dict k v)) q in
      let keys = unify-Both xk yk e in
      let values = unify-Both xv yv e' in
      rw (← some_inj q') (Refines.dict keys.0 values.0, Refines.dict keys.1 values.1)
  unify-Both (Ty.tuple xs) (Ty.tuple ys) h =
      let (ts, e, q) = >>=-eq-some (unify_all xs ys) (λ ts. some (Ty.tuple ts)) h in
      let both = unify_all-Both xs ys e in
      rw (← some_inj q) (Refines.tuple both.0, Refines.tuple both.1)
  unify-Both (Ty.named xn xs) (Ty.named yn ys) h = elim (Bool-cases (text_eq xn yn)) [
    | inl same ↦
        let (ts, e, q) =
          >>=-eq-some (unify_all xs ys) (λ ts. some (Ty.named xn ts)) (rw same at h) in
        let both = unify_all-Both xs ys e in
        rw (← some_inj q, ← (text_eq_iff xn yn).0 same) (Refines.named both.0, Refines.named both.1)
    | inr other ↦ cc (rw other at h)
  ]
  unify-Both (Ty.function xp xe xr) (Ty.function yp ye yr) h =
      let (ps, e, q) =
        >>=-eq-some (unify_all xp yp)
          (λ ps. unify xr yr >>= λ r. some (Ty.function ps (union xe ye) r)) h in
      let (r, e', q') = >>=-eq-some (unify xr yr) (λ r. some (Ty.function ps (union xe ye) r)) q in
      let params = unify_all-Both xp yp e in
      let ret = unify-Both xr yr e' in
      rw (← some_inj q') (Refines.function params.0 ret.0, Refines.function params.1 ret.1)
  unify-Both _ _ h = cc

  unify_all-Both : (as' bs : Tys) {rs : Tys} → unify_all as' bs ≡ some rs → BothAll rs as' bs
  unify_all-Both Tys.nil Tys.nil h = rw (← some_inj h) (RefinesAll.nil, RefinesAll.nil)
  unify_all-Both (Tys.cons x xs) (Tys.cons y ys) h =
      let (t, e, q) =
        >>=-eq-some (unify x y) (λ t. unify_all xs ys >>= λ ts. some (Tys.cons t ts)) h in
      let (ts, e', q') = >>=-eq-some (unify_all xs ys) (λ ts. some (Tys.cons t ts)) q in
      let first = unify-Both x y e in
      let rest = unify_all-Both xs ys e' in
      rw (← some_inj q') (RefinesAll.cons first.0 rest.0, RefinesAll.cons first.1 rest.1)
  unify_all-Both _ _ h = cc

-- The unification succeeds, at a type that `t` refines.
abbrev Least : Ty → Ty → Ty → Type 0
Least t a b = (r : Ty) × (unify a b ≡ some r) × Refines t r

abbrev LeastAll : Tys → Tys → Tys → Type 0
LeastAll ts as' bs = (rs : Tys) × (unify_all as' bs ≡ some rs) × RefinesAll ts rs

mutual
  unfolding unify

  unify-Least : {t a b : Ty} → Refines t a → Refines t b → Least t a b
  unify-Least {b} Refines.any k = (b, refl, k)
  unify-Least {b} Refines.var k = (b, refl, k)
  unify-Least Refines.int Refines.any = (Ty.int, refl, Refines.int)
  unify-Least Refines.int Refines.var = (Ty.int, refl, Refines.int)
  unify-Least Refines.int Refines.int = (Ty.int, refl, Refines.int)
  unify-Least Refines.float Refines.any = (Ty.float, refl, Refines.float)
  unify-Least Refines.float Refines.var = (Ty.float, refl, Refines.float)
  unify-Least Refines.float Refines.float = (Ty.float, refl, Refines.float)
  unify-Least Refines.bool Refines.any = (Ty.bool, refl, Refines.bool)
  unify-Least Refines.bool Refines.var = (Ty.bool, refl, Refines.bool)
  unify-Least Refines.bool Refines.bool = (Ty.bool, refl, Refines.bool)
  unify-Least Refines.str Refines.any = (Ty.str, refl, Refines.str)
  unify-Least Refines.str Refines.var = (Ty.str, refl, Refines.str)
  unify-Least Refines.str Refines.str = (Ty.str, refl, Refines.str)
  unify-Least Refines.void Refines.any = (Ty.void, refl, Refines.void)
  unify-Least Refines.void Refines.var = (Ty.void, refl, Refines.void)
  unify-Least Refines.void Refines.void = (Ty.void, refl, Refines.void)
  unify-Least (Refines.list h) Refines.any = (_, refl, Refines.list h)
  unify-Least (Refines.list h) Refines.var = (_, refl, Refines.list h)
  unify-Least (Refines.list h) (Refines.list k) =
      let (r, e, below) = unify-Least h k in (Ty.list r, rw e, Refines.list below)
  unify-Least (Refines.set h) Refines.any = (_, refl, Refines.set h)
  unify-Least (Refines.set h) Refines.var = (_, refl, Refines.set h)
  unify-Least (Refines.set h) (Refines.set k) =
      let (r, e, below) = unify-Least h k in (Ty.set r, rw e, Refines.set below)
  unify-Least (Refines.dict h h') Refines.any = (_, refl, Refines.dict h h')
  unify-Least (Refines.dict h h') Refines.var = (_, refl, Refines.dict h h')
  unify-Least (Refines.dict h h') (Refines.dict k k') =
      let (r, e, below) = unify-Least h k in
      let (r', e', below') = unify-Least h' k' in
      (Ty.dict r r', rw (e, e'), Refines.dict below below')
  unify-Least (Refines.tuple h) Refines.any = (_, refl, Refines.tuple h)
  unify-Least (Refines.tuple h) Refines.var = (_, refl, Refines.tuple h)
  unify-Least (Refines.tuple h) (Refines.tuple k) =
      let (r, e, below) = unify_all-Least h k in (Ty.tuple r, rw e, Refines.tuple below)
  unify-Least (Refines.named h) Refines.any = (_, refl, Refines.named h)
  unify-Least (Refines.named h) Refines.var = (_, refl, Refines.named h)
  unify-Least (Refines.named {n} h) (Refines.named k) =
      let (r, e, below) = unify_all-Least h k in
      (Ty.named n r, rw (text_eq_refl n, e), Refines.named below)
  unify-Least (Refines.function h h') Refines.any = (_, refl, Refines.function h h')
  unify-Least (Refines.function h h') Refines.var = (_, refl, Refines.function h h')
  unify-Least (Refines.function {d} h h') (Refines.function {d = d'} k k') =
      let (r, e, below) = unify_all-Least h k in
      let (r', e', below') = unify-Least h' k' in
      (Ty.function r (union d d') r', rw (e, e'), Refines.function below below')

  unify_all-Least : {ts as' bs : Tys} → RefinesAll ts as' → RefinesAll ts bs → LeastAll ts as' bs
  unify_all-Least RefinesAll.nil RefinesAll.nil = (Tys.nil, refl, RefinesAll.nil)
  unify_all-Least (RefinesAll.cons h h') (RefinesAll.cons k k') =
      let (r, e, below) = unify-Least h k in
      let (r', e', below') = unify_all-Least h' k' in
      (Tys.cons r r', rw (e, e'), RefinesAll.cons below below')

-- `unify a b` gives a type that refines both `a` and `b`, and that every common refinement of them
-- refines; it gives one whenever they have a common refinement.
pub unify-is_least :
    (a b : Ty)
    → ((r : Ty) → unify a b ≡ some r → Refines r a × Refines r b)
      × ((t : Ty) → Refines t a → Refines t b → (r : Ty) × (unify a b ≡ some r) × Refines t r)
unify-is_least a b = (λ r. unify-Both a b, λ t. unify-Least)

-- When `unify a b` gives a type, `unify b a` gives one too, which the first refines.
pub unify_comm :
    (a b : Ty) {r : Ty} → unify a b ≡ some r → (s : Ty) × (unify b a ≡ some s) × Refines r s
unify_comm a b h = let (p, q) = unify-Both a b h in unify-Least q p

-- The placeholder and a type variable unify with every type.
pub unify-wild : (a : Ty) {b : Ty} → ((t : Ty) → Refines t b) → (r : Ty) × (unify a b ≡ some r)
unify-wild a anything = let (r, e, _) = unify-Least (Refines-self a) (anything a) in (r, e)
