-- ===== src/Types/Unify.antt =====
-- src/types/infer.rs: `unify`. A type variable and the recovery placeholder are compatible with every
-- type, and effects take no part in compatibility.
pub mod Refinement
use yabumi.Common.{Option, some, none, ◌>>=◌, Text, text_eq, if◌then◌else◌}
use yabumi.Types.Effects.{union}
use yabumi.Types.Ty.{
  Ty, Tys, int, float, bool, str, void, list, dict, set, tuple, named, function, type_var, unknown,
  nil, cons,
}

unfoldable mutual
  pub unify : Ty → Ty → Option Ty
  unify unknown b = some b
  unify (type_var n) b = some b
  unify a unknown = some a
  unify a (type_var n) = some a
  unify int int = some int
  unify float float = some float
  unify bool bool = some bool
  unify str str = some str
  unify void void = some void
  unify (list x) (list y) = unify x y >>= λ t. some (list t)
  unify (set x) (set y) = unify x y >>= λ t. some (set t)
  unify (dict xk xv) (dict yk yv) = unify xk yk >>= λ k. unify xv yv >>= λ v. some (dict k v)
  unify (tuple xs) (tuple ys) = unify_all xs ys >>= λ ts. some (tuple ts)
  unify (named xn xs) (named yn ys) =
      if text_eq xn yn then (unify_all xs ys >>= λ ts. some (named xn ts)) else none
  unify (function xp xe xr) (function yp ye yr) =
      unify_all xp yp >>= λ ps. unify xr yr >>= λ r. some (function ps (union xe ye) r)
  unify _ _ = none

  -- The loop over `xs.iter().zip(ys.iter())` behind the guard on the lengths.
  pub unify_all : Tys → Tys → Option Tys
  unify_all nil nil = some nil
  unify_all (cons x xs) (cons y ys) = unify x y >>= λ t. unify_all xs ys >>= λ ts. some (cons t ts)
  unify_all _ _ = none
