-- ===== src/Calc/UnaryRules.antt =====
-- The types and values of the unary nodes.
use kcc.Ast.Expr.{Expr, type_of}
use kcc.Ast.Rules.{UnaryRule, sign_op}
use kcc.Calc.Value.{is_whole, whole, unary_value, unary_in}
use kcc.Prelude.{ap, Bool, true, false, ◌≡◌, refl, sym, ◌∙◌, Option, none, some, if_true}
use kcc.Prelude.Int.{ℤ}
use kcc.Prelude.Options.{none_some}
use kcc.Token.{Tag}
use kcc.Ty.Arithmetic.{ArithmeticType}
use kcc.Ty.CType.{Ty, QualType, get_type}

pub false-true : ¬ Path Bool false true
false-true h = cc

-- The types of the unary nodes whose operator has a value.
pub sign-type :
    (op : Tag) {e : Expr} {t : QualType} → sign_op op ≡ true → UnaryRule op e t → t ≡ type_of e
sign-type op o (UnaryRule.modified i m r) = refl
sign-type op o (UnaryRule.signed i m) = refl
sign-type op o (UnaryRule.complement i m) = refl
sign-type op o (UnaryRule.negated i m) = absurd (false-true (sym (ap sign_op i) ∙ o))
sign-type op o (UnaryRule.dereferenced i m) = absurd (false-true (sym (ap sign_op i) ∙ o))
sign-type op o (UnaryRule.addressed i m) = absurd (false-true (sym (ap sign_op i) ∙ o))

pub tilde-type : {e : Expr} {t : QualType} → UnaryRule Tag.tilde e t → t ≡ type_of e
tilde-type (UnaryRule.modified i m r) = refl
tilde-type (UnaryRule.signed i m) = refl
tilde-type (UnaryRule.complement i m) = refl
tilde-type (UnaryRule.negated i m) = cc
tilde-type (UnaryRule.dereferenced i m) = cc
tilde-type (UnaryRule.addressed i m) = cc

pub exclaim-type :
    {e : Expr} {t : QualType}
    → UnaryRule Tag.exclaim e t
    → get_type t ≡ Ty.arithmetic ArithmeticType.int
exclaim-type (UnaryRule.negated i m) = refl
exclaim-type (UnaryRule.modified i m r) = cc
exclaim-type (UnaryRule.signed i m) = cc
exclaim-type (UnaryRule.complement i m) = cc
exclaim-type (UnaryRule.dereferenced i m) = cc
exclaim-type (UnaryRule.addressed i m) = cc

abbrev valued : Tag → Bool
valued Tag.plus = true
valued Tag.minus = true
valued Tag.tilde = true
valued Tag.exclaim = true
valued _ = false

pub no_unary :
    (op : Tag) (o : Option ArithmeticType) (x : ℤ) {z : ℤ}
    → valued op ≡ false
    → ¬ (unary_in op o x ≡ some z)
no_unary op none x v h = none_some h
no_unary Tag.plus (some a) x v h = cc
no_unary Tag.minus (some a) x v h = cc
no_unary Tag.tilde (some a) x v h = cc
no_unary Tag.exclaim (some a) x v h = cc
no_unary _ (some a) x v h = none_some h

pub unary_at :
    (op : Tag) (t : Ty) (a : ArithmeticType) (x : ℤ)
    → t ≡ Ty.arithmetic a
    → is_whole a ≡ true
    → unary_value op t x ≡ unary_in op (some a) x
unfolding unary_value
unary_at op t a x p w = ap (λ o. unary_in op o x) (ap whole p ∙ if_true _ _ w)
