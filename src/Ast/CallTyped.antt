-- ===== src/Ast/CallTyped.antt =====
-- `FuncCallExpr` follows the rules.
use kcc.Ast.Call.{
  make_call, call_function, match_arguments, promote_arguments, promote_argument, is_float,
}
use kcc.Ast.Casts.{Stands, may_cast_to-Stands, may_cast_to-number, promoted-cases}
use kcc.Ast.CompareTyped.{itself}
use kcc.Ast.Expr.{Expr, Args, type_of, ty_of, promoted}
use kcc.Ast.Kinds.{is_pointer, is_integer}
use kcc.Ast.Rules.{Typed, TypedArgs, Fits, CallRule, Coerced, default_promoted}
use kcc.Ast.UnaryTyped.{MakesUnary, makes_unary, make_unary-Makes}
use kcc.Prelude.{Bool, true, false, ◌≡◌, refl, inl, inr, arith, some, Bool-cases, Option-cases}
use kcc.Prelude.Results.{ok, Post, holds, fails, Post-bind, Post-if, Post-map}
use kcc.Token.{Tag}
use kcc.Ty.Arithmetic.{ArithmeticType, integer_promote, rank, type_spec, is_integer_ty}
use kcc.Ty.CType.{Ty, QualType, qual, get_type, get_type_qual, Params, nil, cons}

-- Arguments under conversions.
pub data CoercedArgs : Args → Args → Type 0 where
  none : CoercedArgs Args.no_args Args.no_args
  one :
      {e d : Expr} {es ds : Args}
      → Coerced e d
      → CoercedArgs es ds
      → CoercedArgs (Args.arg e es) (Args.arg d ds)

-- Arguments as they are passed.
record Passed (ps : Params) (v : Bool) (es ds : Args) : Type 0 where
  coerced : CoercedArgs es ds
  typed : TypedArgs ds
  fits : Fits ps v ds

promote_fixed :
    (a c : ArithmeticType) → integer_promote a ≡ some c → default_promoted (Ty.arithmetic c) ≡ true
unfolding integer_promote type_spec
promote_fixed a c h = ground (arith, h)

promoted_fixed :
    (t : Ty) (c : ArithmeticType)
    → promoted t ≡ ok (Ty.arithmetic c)
    → default_promoted (Ty.arithmetic c) ≡ true
unfolding promoted
promoted_fixed (Ty.arithmetic a) c h = elim (Option-cases (integer_promote a)) [
  | inl e ↦ absurd (ground (arith, e, h))
  | inr (d, e) ↦ promote_fixed a c (ground (arith, e, h))
]
promoted_fixed Ty.void c h = cc
promoted_fixed _ c h = cc

double_fixed : default_promoted (Ty.arithmetic ArithmeticType.double) ≡ true
unfolding type_spec is_integer_ty rank
double_fixed = refl

others_fixed : (t : Ty) → is_float t ≡ false → is_integer t ≡ false → default_promoted t ≡ true
others_fixed (Ty.arithmetic a) f i = ground (arith, f, i)
others_fixed _ f i = refl

promote_argument-Stands :
    (e : Expr)
    → Typed e
    → Post (λ d. Stands e d × (default_promoted (ty_of d) ≡ true)) (promote_argument e)
unfolding promote_argument
promote_argument-Stands e h =
    Post-if (is_float (ty_of e))
      (λ _.
        Post-map (λ d g. (g.0, rw g.1 double_fixed))
          (may_cast_to-number e e ArithmeticType.double (get_type_qual (type_of e)) (itself e h)))
      λ a.
        Post-if (is_integer (ty_of e))
          (λ _. elim (promoted-cases (ty_of e)) [
            | inl (x, p) ↦ rw p fails
            | inr (t, p, _, _) ↦ rw p (
                Post-map (λ d g. (g.0, rw g.1 (promoted_fixed (ty_of e) t p)))
                  (may_cast_to-number e e t (get_type_qual (type_of e)) (itself e h)))
          ])
          (λ b. holds (itself e h, others_fixed (ty_of e) a b))

promote_arguments-Passed :
    (es : Args) → TypedArgs es → Post (Passed nil true es) (promote_arguments es)
unfolding promote_arguments
promote_arguments-Passed Args.no_args h =
    holds (record { coerced = none; typed = TypedArgs.no_args; fits = Fits.no_more })
promote_arguments-Passed (Args.arg e es) (TypedArgs.arg h hs) =
    Post-bind (promote_argument-Stands e h) λ d g.
      Post-bind (promote_arguments-Passed es hs) λ ds gs. holds (record {
        coerced = one g.0.coerced gs.coerced;
        typed = TypedArgs.arg g.0.typed gs.typed;
        fits = Fits.variable g.1 gs.fits;
      })

match_arguments-Passed :
    (ps : Params) (v : Bool) (es : Args)
    → TypedArgs es
    → Post (Passed ps v es) (match_arguments ps v es)
unfolding match_arguments
match_arguments-Passed nil v Args.no_args h =
    holds (record { coerced = none; typed = TypedArgs.no_args; fits = Fits.no_more })
match_arguments-Passed nil true (Args.arg e es) h = promote_arguments-Passed (Args.arg e es) h
match_arguments-Passed nil false (Args.arg e es) h = fails
match_arguments-Passed (cons p ps) v Args.no_args h = fails
match_arguments-Passed (cons p ps) v (Args.arg e es) (TypedArgs.arg h hs) =
    Post-bind (may_cast_to-Stands e e (qual (get_type p) 0) (itself e h)) λ d g.
      Post-bind (match_arguments-Passed ps v es hs) λ ds gs. holds (record {
        coerced = one g.0.coerced gs.coerced;
        typed = TypedArgs.arg g.0.typed gs.typed;
        fits = Fits.next g.1 gs.fits;
      })

-- The node of a call: the callee is `f`, or `f` dereferenced, and the arguments are those given, under
-- conversions; the rules hold.
pub data MakesCall (f : Expr) (es : Args) : Expr → Type 0 where
  direct :
      {ds : Args} {t : QualType}
      → CoercedArgs es ds
      → Typed (Expr.call f ds t)
      → MakesCall f es (Expr.call f ds t)
  through_pointer :
      {d : Expr} {ds : Args} {t u : QualType}
      → Coerced f d
      → CoercedArgs es ds
      → Typed (Expr.call (Expr.unary Tag.star d u) ds t)
      → MakesCall f es (Expr.call (Expr.unary Tag.star d u) ds t)

-- A call of a given function.
data Calls (g : Expr) (es : Args) : Expr → Type 0 where
  calls :
      {ds : Args} {t : QualType}
      → CoercedArgs es ds
      → Typed (Expr.call g ds t)
      → Calls g es (Expr.call g ds t)

call_function-Calls :
    (g : Expr) (es : Args) (t : Ty)
    → Typed g
    → TypedArgs es
    → ty_of g ≡ t
    → Post (Calls g es) (call_function g es t)
unfolding call_function
call_function-Calls g es (Ty.function r ps v) h hs e =
    Post-bind (match_arguments-Passed ps v es hs)
      λ ds a. holds (calls a.coerced (Typed.call h a.typed (CallRule.called e a.fits)))
call_function-Calls g es Ty.void h hs e = fails
call_function-Calls g es _ h hs e = fails

Calls-direct : {f : Expr} {es : Args} {e : Expr} → Calls f es e → MakesCall f es e
Calls-direct (calls a h) = direct a h

-- The node of a call made of a typed callee and typed arguments calls the callee, dereferenced if it
-- is a pointer, with the arguments under conversions, as many as there are, and follows the typing
-- rules.
pub make_call-Makes :
    (f : Expr) (es : Args) → Typed f → TypedArgs es → Post (MakesCall f es) (make_call f es)
unfolding make_call
make_call-Makes f es h hs = elim (Bool-cases (is_pointer (ty_of f))) [
  | inl p ↦ rw p (Post-bind (make_unary-Makes Tag.star f h) λ g m. through g m)
  | inr p ↦ rw p (Post-map (λ e c. Calls-direct c) (call_function-Calls f es (ty_of f) h hs refl))
]
  where
    pointed :
        {d : Expr} {u : QualType} {e : Expr}
        → Coerced f d
        → Calls (Expr.unary Tag.star d u) es e
        → MakesCall f es e
    pointed k (calls a t) = through_pointer k a t

    through :
        (g : Expr) → MakesUnary Tag.star f g → Post (MakesCall f es) (call_function g es (ty_of g))
    through _ (makes_unary {d} {t} k m) =
        Post-map (λ e c. pointed k c)
          (call_function-Calls (Expr.unary Tag.star d t) es (get_type t) m hs refl)
