-- ===== src/Types/Generics/Soundness.antt =====
-- A successful `unify_collect` makes the declared type, with the table put in, compatible with the
-- concrete type.
use yabumi.Common.{
  ◌⊎◌, ◌==◌, Bool, true, false, ◌&&◌, some, none, if◌then◌else◌, ◌≡◌, refl, inl, inr, arith, Text,
  text_eq, text_eq_iff, text_eq_refl, Option-cases, &&-true,
}
use yabumi.Common.TextMap.{get, insert, get-insert, get-insert_self}
use yabumi.Types.Effects.{EffectSet, union}
use yabumi.Types.Ty.{Ty, Tys, type_var, unknown, count}
use yabumi.Types.Unify.{unify, unify_all}
use yabumi.Types.Unify.Refinement.{unify-wild, Refines-self, Refines, unify-is_least}
use yabumi.Types.Generics.Origin.{Meets, unify_collect-Adds}
use yabumi.Types.Generics.{
  Subst, structurally_compatible, and_then, collect_var, unify_collect, unify_collect_all,
  substitute, substitute_all,
}

-- The second table has every entry of the first.
abbrev pub Extends : Subst → Subst → Type 0
Extends s s' = (n : Text) (t : Ty) → get n s ≡ some t → get n s' ≡ some t

-- A table entry for each variable of the pattern that meets a known concrete type, compatible with
-- that type.
mutual
  pub data Fits (s : Subst) : Ty → Ty → Type 0 where
    unknown_concrete : {p : Ty} → Fits s p unknown
    var_concrete : {p : Ty} {m : Text} → Fits s p (type_var m)
    bound : {n : Text} {c t r : Ty} → get n s ≡ some t → unify t c ≡ some r → Fits s (type_var n) c
    base : {p c r : Ty} → ((s' : Subst) → substitute p s' ≡ p) → unify p c ≡ some r → Fits s p c
    list : {a b : Ty} → Fits s a b → Fits s (Ty.list a) (Ty.list b)
    set : {a b : Ty} → Fits s a b → Fits s (Ty.set a) (Ty.set b)
    dict : {a b c d : Ty} → Fits s a b → Fits s c d → Fits s (Ty.dict a c) (Ty.dict b d)
    tuple : {xs ys : Tys} → FitsAll s xs ys → Fits s (Ty.tuple xs) (Ty.tuple ys)
    named : {n : Text} {xs ys : Tys} → FitsAll s xs ys → Fits s (Ty.named n xs) (Ty.named n ys)
    function :
        {xs ys : Tys} {e d : EffectSet} {a b : Ty}
        → FitsAll s xs ys
        → Fits s a b
        → Fits s (Ty.function xs e a) (Ty.function ys d b)

  pub data FitsAll (s : Subst) : Tys → Tys → Type 0 where
    nil : FitsAll s Tys.nil Tys.nil
    cons :
        {x y : Ty} {xs ys : Tys}
        → Fits s x y
        → FitsAll s xs ys
        → FitsAll s (Tys.cons x xs) (Tys.cons y ys)

mutual
  Fits-Extends : {s s' : Subst} {p c : Ty} → Extends s s' → Fits s p c → Fits s' p c
  Fits-Extends x Fits.unknown_concrete = Fits.unknown_concrete
  Fits-Extends x Fits.var_concrete = Fits.var_concrete
  Fits-Extends x (Fits.bound g u) = Fits.bound (x _ _ g) u
  Fits-Extends x (Fits.base f u) = Fits.base f u
  Fits-Extends x (Fits.list f) = Fits.list (Fits-Extends x f)
  Fits-Extends x (Fits.set f) = Fits.set (Fits-Extends x f)
  Fits-Extends x (Fits.dict f g) = Fits.dict (Fits-Extends x f) (Fits-Extends x g)
  Fits-Extends x (Fits.tuple f) = Fits.tuple (FitsAll-Extends x f)
  Fits-Extends x (Fits.named f) = Fits.named (FitsAll-Extends x f)
  Fits-Extends x (Fits.function f g) = Fits.function (FitsAll-Extends x f) (Fits-Extends x g)

  FitsAll-Extends : {s s' : Subst} {ps cs : Tys} → Extends s s' → FitsAll s ps cs → FitsAll s' ps cs
  FitsAll-Extends x FitsAll.nil = FitsAll.nil
  FitsAll-Extends x (FitsAll.cons f g) = FitsAll.cons (Fits-Extends x f) (FitsAll-Extends x g)

-- The call keeps every entry, and if it succeeds the property holds of the table.
record Sound (P : Subst → Type 0) (s : Subst) (result : Bool × Subst) : Type 0 where
  extends : Extends s result.1
  fits : result.0 ≡ true → P result.1

succeeds : {P : Subst → Type 0} (s : Subst) → P s → Sound P s (true, s)
succeeds s h = record { extends = λ n t g. g; fits = λ _. h }

fails : {P : Subst → Type 0} (s : Subst) → Sound P s (false, s)
fails s = record { extends = λ n t g. g; fits = λ e. cc }

Sound-map :
    {P Q : Subst → Type 0} {s : Subst} {r : Bool × Subst}
    → ((s' : Subst) → P s' → Q s')
    → Sound P s r
    → Sound Q s r
Sound-map f h = record { extends = h.extends; fits = λ e. f _ (h.fits e) }

Sound-and_then :
    {P Q : Subst → Type 0} {s : Subst} (r : Bool × Subst) {k : Subst → Bool × Subst}
    → ((s s' : Subst) → Extends s s' → P s → P s')
    → Sound P s r
    → ((s' : Subst) → Sound Q s' (k s'))
    → Sound (λ s'. P s' × Q s') s (and_then r k)
Sound-and_then (true, s₁) keep h then_k = record {
  extends = λ n t g. (then_k s₁).extends n t (h.extends n t g);
  fits = λ e. (keep _ _ (then_k s₁).extends (h.fits refl), (then_k s₁).fits e);
}
Sound-and_then (false, s₁) keep h then_k = record { extends = h.extends; fits = λ e. cc }

Sound-if :
    {P : Subst → Type 0} {s : Subst} (b : Bool) {r : Bool × Subst}
    → (b ≡ true → Sound P s r)
    → Sound P s (if b then r else (false, s))
Sound-if true h = h refl
Sound-if {s} false h = fails s

compatible-Sound :
    {P : Subst → Type 0} (a c : Ty) (s : Subst)
    → ((r : Ty) → unify a c ≡ some r → P s)
    → Sound P s (structurally_compatible a c, s)
unfolding structurally_compatible
compatible-Sound a c s f = elim (Option-cases (unify a c)) [
  | inl e ↦ rw e (fails s)
  | inr (r, e) ↦ rw e (succeeds s (f r e))
]

-- An insertion of an absent name keeps every entry.
insert-Extends : (n : Text) (c : Ty) (s : Subst) → get n s ≡ none → Extends s (insert n c s)
insert-Extends n c s absent m t g = ground (arith, get-insert n m c s, text_eq_iff n m)

collect_var-Sound :
    (n : Text) (c : Ty) (s : Subst) → Sound (λ s'. Fits s' (type_var n) c) s (collect_var n c s)
unfolding collect_var
collect_var-Sound n c s = elim (Option-cases (get n s)) [
  | inl e ↦
      rw (e, collect_var)
        (record {
          extends = insert-Extends n c s e;
          fits = λ _.
              Fits.bound (get-insert_self n c s)
                ((unify-is_least c c).1 c (Refines-self c) (Refines-self c)).1;
        })
  | inr (t, e) ↦ rw (e, collect_var) (compatible-Sound t c s (λ r u. Fits.bound e u))
]

mutual
  unfolding unify_collect substitute

  unify_collect-Sound : (p c : Ty) (s : Subst) → Sound (λ s'. Fits s' p c) s (unify_collect p c s)
  unify_collect-Sound p unknown s = succeeds s Fits.unknown_concrete
  unify_collect-Sound p (type_var m) s = succeeds s Fits.var_concrete
  unify_collect-Sound (type_var n) c s = collect_var-Sound n c s
  unify_collect-Sound (Ty.list a) (Ty.list b) s =
      Sound-map (λ _. Fits.list) (unify_collect-Sound a b s)
  unify_collect-Sound (Ty.set a) (Ty.set b) s =
      Sound-map (λ _. Fits.set) (unify_collect-Sound a b s)
  unify_collect-Sound (Ty.dict ak av) (Ty.dict bk bv) s =
      Sound-map (λ _ (f, g). Fits.dict f g)
        (Sound-and_then _ (λ _ _. Fits-Extends) (unify_collect-Sound ak bk s)
          (unify_collect-Sound av bv))
  unify_collect-Sound (Ty.tuple xs) (Ty.tuple ys) s =
      Sound-if (count xs == count ys)
        (λ _. Sound-map (λ _. Fits.tuple) (unify_collect_all-Sound xs ys s))
  unify_collect-Sound (Ty.named pn xs) (Ty.named cn ys) s =
      Sound-if (text_eq pn cn && count xs == count ys) λ e.
        Sound-map (λ _ f. rw ((text_eq_iff pn cn).0 (&&-true (text_eq pn cn) _ e).0) (Fits.named f))
          (unify_collect_all-Sound xs ys s)
  unify_collect-Sound (Ty.function pp pe pr) (Ty.function cp ce cr) s =
      Sound-if (count pp == count cp) λ _.
        Sound-map (λ _ (f, g). Fits.function f g)
          (Sound-and_then _ (λ _ _. FitsAll-Extends) (unify_collect_all-Sound pp cp s)
            (unify_collect-Sound pr cr))
  unify_collect-Sound Ty.int c s = compatible-Sound Ty.int c s (λ r. Fits.base (λ _. refl))
  unify_collect-Sound Ty.float c s = compatible-Sound Ty.float c s (λ r. Fits.base (λ _. refl))
  unify_collect-Sound Ty.bool c s = compatible-Sound Ty.bool c s (λ r. Fits.base (λ _. refl))
  unify_collect-Sound Ty.str c s = compatible-Sound Ty.str c s (λ r. Fits.base (λ _. refl))
  unify_collect-Sound Ty.void c s = compatible-Sound Ty.void c s (λ r. Fits.base (λ _. refl))
  unify_collect-Sound unknown c s = compatible-Sound unknown c s (λ r. Fits.base (λ _. refl))
  unify_collect-Sound _ _ s = fails s

  unify_collect_all-Sound :
      (ps cs : Tys) (s : Subst) → Sound (λ s'. FitsAll s' ps cs) s (unify_collect_all ps cs s)
  unify_collect_all-Sound Tys.nil Tys.nil s = succeeds s FitsAll.nil
  unify_collect_all-Sound (Tys.cons x xs) (Tys.cons y ys) s =
      Sound-map (λ _ (f, g). FitsAll.cons f g)
        (Sound-and_then _ (λ _ _. Fits-Extends) (unify_collect-Sound x y s)
          (unify_collect_all-Sound xs ys))
  unify_collect_all-Sound _ _ s = fails s

mutual
  unfolding substitute unify

  Fits-unify : {s : Subst} {p c : Ty} → Fits s p c → (r : Ty) × (unify (substitute p s) c ≡ some r)
  Fits-unify {s} (Fits.unknown_concrete {p}) =
      unify-wild (substitute p s) {b = unknown} (λ t. Refines.any)
  Fits-unify {s} (Fits.var_concrete {p} {m}) =
      unify-wild (substitute p s) {b = type_var m} (λ t. Refines.var)
  Fits-unify (Fits.bound {r} g u) = (r, rw g u)
  Fits-unify {s} (Fits.base {r} f u) = (r, rw (f s) u)
  Fits-unify (Fits.list f) = let (r, e) = Fits-unify f in (Ty.list r, rw e)
  Fits-unify (Fits.set f) = let (r, e) = Fits-unify f in (Ty.set r, rw e)
  Fits-unify (Fits.dict f g) =
      let (r, e) = Fits-unify f in let (r', e') = Fits-unify g in (Ty.dict r r', rw (e, e'))
  Fits-unify (Fits.tuple f) = let (r, e) = FitsAll-unify f in (Ty.tuple r, rw e)
  Fits-unify (Fits.named {n} f) =
      let (r, e) = FitsAll-unify f in (Ty.named n r, rw (text_eq_refl n, e))
  Fits-unify (Fits.function {e = d} {d = d'} f g) =
      let (r, e) = FitsAll-unify f in
      let (r', e') = Fits-unify g in (Ty.function r (union d d') r', rw (e, e'))

  FitsAll-unify :
      {s : Subst} {ps cs : Tys}
      → FitsAll s ps cs
      → (rs : Tys) × (unify_all (substitute_all ps s) cs ≡ some rs)
  FitsAll-unify FitsAll.nil = (Tys.nil, refl)
  FitsAll-unify (FitsAll.cons f g) =
      let (r, e) = Fits-unify f in let (r', e') = FitsAll-unify g in (Tys.cons r r', rw (e, e'))

-- The table keeps every entry it had, whether the call succeeds or not, and an entry that it adds is the
-- known concrete type that its variable meets in the declared type. When the call succeeds, every variable
-- of the declared type that meets a known concrete type has an entry compatible with it, and the declared
-- type with the table put in unifies with the concrete type.
pub unify_collect_sound :
    (p c : Ty) (s : Subst)
    → Extends s (unify_collect p c s).1
      × ((n : Text) (t : Ty)
          → get n (unify_collect p c s).1 ≡ some t
          → (get n s ≡ some t) ⊎ Meets n t p c)
      × ((unify_collect p c s).0 ≡ true
          → Fits (unify_collect p c s).1 p c
            × (r : Ty) × (unify (substitute p (unify_collect p c s).1) c ≡ some r))
unify_collect_sound p c s =
    let done = unify_collect-Sound p c s in
    (
      done.extends,
      (unify_collect-Adds p c s).origin,
      λ e. let (r, unified) = Fits-unify (done.fits e) in (done.fits e, r, unified),
    )
