-- ===== src/Eval/Flow/Keeps.antt =====
-- What a step does to the environment: it keeps the frames below the current one, the number of
-- scopes, the names of the outer scopes, and the names that the innermost scope has.
pub mod Rules
pub mod Writes
use yabumi.Common.{
  Bool, true, false, List, [], ◌∷◌, ◌≡◌, refl, sym, ◌∙◌, ap, Text, arith, All, if◌then◌else◌,
}
use yabumi.Common.TextMap.{
  contains_key, insert, contains_key-insert, insert-Distinct, Distinct, get,
}
use yabumi.Eval.Env.{Environment, Frame, Scope, push_scope, pop_scope, bind, write, write_in}
use yabumi.Eval.Env.Laws.{IsValid, ValidScopes}
use yabumi.Eval.Flow.{Flow, State, Eval, pure, leave, lift, asks, does, update, scoped, ◌>>=◌}
use yabumi.Eval.Host.{Call}
use yabumi.Eval.Panic.{Outcome, ok, abort, unreachable}
use yabumi.Eval.Value.{Value}

abbrev pub SameNames : List Scope → List Scope → Type 0
SameNames [] [] = Unit
SameNames (s ∷ ss) (t ∷ ts) = ((j : Text) → contains_key j s ≡ contains_key j t) × SameNames ss ts
SameNames _ _ = ⊥

abbrev pub Includes : Scope → Scope → Type 0
Includes s t = (j : Text) → contains_key j s ≡ true → contains_key j t ≡ true

abbrev pub GrownScopes : List Scope → List Scope → Type 0
GrownScopes (s ∷ ss) (t ∷ ts) = Includes s t × SameNames ss ts
GrownScopes _ _ = ⊥

abbrev pub GrownFrames : List Frame → List Frame → Type 0
GrownFrames (f ∷ fs) (g ∷ gs) = GrownScopes f.scopes g.scopes × (fs ≡ gs)
GrownFrames _ _ = ⊥

-- The environment behind is valid, and has grown in the innermost scope alone.
pub record Grown (env after : Environment) : Type 0 where
  pub still_valid : IsValid after
  pub grown : GrownFrames env.frames after.frames

SameNames-refl : (ss : List Scope) → SameNames ss ss
SameNames-refl [] = tt
SameNames-refl (s ∷ ss) = (λ j. refl, SameNames-refl ss)

SameNames-trans : (ss ts us : List Scope) → SameNames ss ts → SameNames ts us → SameNames ss us
SameNames-trans [] [] [] p q = tt
SameNames-trans (s ∷ ss) (t ∷ ts) (u ∷ us) p q =
    (λ j. p.0 j ∙ q.0 j, SameNames-trans ss ts us p.1 q.1)
SameNames-trans [] [] (u ∷ us) p q = elim q [ ]
SameNames-trans [] (t ∷ ts) us p q = elim p [ ]
SameNames-trans (s ∷ ss) [] us p q = elim p [ ]
SameNames-trans (s ∷ ss) (t ∷ ts) [] p q = elim q [ ]

GrownScopes-trans :
    (ss ts us : List Scope) → GrownScopes ss ts → GrownScopes ts us → GrownScopes ss us
GrownScopes-trans (s ∷ ss) (t ∷ ts) (u ∷ us) p q =
    (λ j h. q.0 j (p.0 j h), SameNames-trans ss ts us p.1 q.1)
GrownScopes-trans [] ts us p q = elim p [ ]
GrownScopes-trans (s ∷ ss) [] us p q = elim p [ ]
GrownScopes-trans (s ∷ ss) (t ∷ ts) [] p q = elim q [ ]

GrownFrames-trans :
    (fs gs hs : List Frame) → GrownFrames fs gs → GrownFrames gs hs → GrownFrames fs hs
GrownFrames-trans (f ∷ fs) (g ∷ gs) (h ∷ hs) p q =
    (GrownScopes-trans f.scopes g.scopes h.scopes p.0 q.0, p.1 ∙ q.1)
GrownFrames-trans [] gs hs p q = elim p [ ]
GrownFrames-trans (f ∷ fs) [] hs p q = elim p [ ]
GrownFrames-trans (f ∷ fs) (g ∷ gs) [] p q = elim q [ ]

pub Grown-refl : (env : Environment) → IsValid env → Grown env env
Grown-refl _ (IsValid.valid s ss fs d ds df) = record {
  still_valid = IsValid.valid s ss fs d ds df;
  grown = ((λ j h. h, SameNames-refl ss), refl);
}

pub Grown-trans : (a b c : Environment) → Grown a b → Grown b c → Grown a c
Grown-trans a b c p q = record {
  still_valid = q.still_valid;
  grown = GrownFrames-trans a.frames b.frames c.frames p.grown q.grown;
}

-- A write to the environment that grows it, where it succeeds.
abbrev pub Grows : (Environment → Outcome Environment) → Type 0
Grows f = (env after : Environment) → IsValid env → f env ≡ ok after → Grown env after

-- A step that leads from a valid environment to one that has grown, whether it returns early or not.
pub record Keeps {W A : Type 0} (m : Eval W A) : Type 0 where
  pub at : (s t : State W) (r : Flow A) → IsValid s.env → m s ≡ ok (r, t) → Grown s.env t.env
