-- ===== src/Ty/DeclTable.antt =====
-- The type specifiers of the C standard, 6.7.2: which multisets of keywords name a type, and which type. The
-- table is written out from the standard, with `char` as a signed type, and each row in an order
-- that a program may use.
use kcc.Prelude.{ℕ, ◌+◌, Bool, true, false, List, [], ◌∷◌, if◌then◌else◌}
use kcc.Ty.Arithmetic.{ArithmeticType}
use kcc.Ty.CType.{Ty}
use kcc.Ty.DeclSpec.{Keyword, Specifier, keyword, add_keyword}

pub record Row : Type 0 where
  pub keywords : List Keyword
  pub type : Ty

abbrev row : List Keyword → ArithmeticType → Row
row ks a = record { keywords = ks; type = Ty.arithmetic a }

abbrev pub table : List Row
table =
    record { keywords = Keyword.void ∷ []; type = Ty.void }
    ∷ row (Keyword.char ∷ []) ArithmeticType.char
    ∷ row (Keyword.signed ∷ Keyword.char ∷ []) ArithmeticType.char
    ∷ row (Keyword.unsigned ∷ Keyword.char ∷ []) ArithmeticType.uchar
    ∷ row (Keyword.short ∷ []) ArithmeticType.short
    ∷ row (Keyword.signed ∷ Keyword.short ∷ []) ArithmeticType.short
    ∷ row (Keyword.short ∷ Keyword.int ∷ []) ArithmeticType.short
    ∷ row (Keyword.signed ∷ Keyword.short ∷ Keyword.int ∷ []) ArithmeticType.short
    ∷ row (Keyword.unsigned ∷ Keyword.short ∷ []) ArithmeticType.ushort
    ∷ row (Keyword.unsigned ∷ Keyword.short ∷ Keyword.int ∷ []) ArithmeticType.ushort
    ∷ row (Keyword.int ∷ []) ArithmeticType.int
    ∷ row (Keyword.signed ∷ []) ArithmeticType.int
    ∷ row (Keyword.signed ∷ Keyword.int ∷ []) ArithmeticType.int
    ∷ row (Keyword.unsigned ∷ []) ArithmeticType.uint
    ∷ row (Keyword.unsigned ∷ Keyword.int ∷ []) ArithmeticType.uint
    ∷ row (Keyword.long ∷ []) ArithmeticType.long
    ∷ row (Keyword.signed ∷ Keyword.long ∷ []) ArithmeticType.long
    ∷ row (Keyword.long ∷ Keyword.int ∷ []) ArithmeticType.long
    ∷ row (Keyword.signed ∷ Keyword.long ∷ Keyword.int ∷ []) ArithmeticType.long
    ∷ row (Keyword.unsigned ∷ Keyword.long ∷ []) ArithmeticType.ulong
    ∷ row (Keyword.unsigned ∷ Keyword.long ∷ Keyword.int ∷ []) ArithmeticType.ulong
    ∷ row (Keyword.long ∷ Keyword.long ∷ []) ArithmeticType.long_long
    ∷ row (Keyword.signed ∷ Keyword.long ∷ Keyword.long ∷ []) ArithmeticType.long_long
    ∷ row (Keyword.long ∷ Keyword.long ∷ Keyword.int ∷ []) ArithmeticType.long_long
    ∷ row (Keyword.signed ∷ Keyword.long ∷ Keyword.long ∷ Keyword.int ∷ []) ArithmeticType.long_long
    ∷ row (Keyword.unsigned ∷ Keyword.long ∷ Keyword.long ∷ []) ArithmeticType.ulong_long
    ∷ row (Keyword.unsigned ∷ Keyword.long ∷ Keyword.long ∷ Keyword.int ∷ [])
        ArithmeticType.ulong_long
    ∷ row (Keyword.float ∷ []) ArithmeticType.float
    ∷ row (Keyword.double ∷ []) ArithmeticType.double
    ∷ row (Keyword.long ∷ Keyword.double ∷ []) ArithmeticType.long_double
    ∷ row (Keyword.bool ∷ []) ArithmeticType.bool
    ∷ []

abbrev pub same_keyword : Keyword → Keyword → Bool
same_keyword Keyword.void Keyword.void = true
same_keyword Keyword.char Keyword.char = true
same_keyword Keyword.short Keyword.short = true
same_keyword Keyword.int Keyword.int = true
same_keyword Keyword.long Keyword.long = true
same_keyword Keyword.float Keyword.float = true
same_keyword Keyword.double Keyword.double = true
same_keyword Keyword.signed Keyword.signed = true
same_keyword Keyword.unsigned Keyword.unsigned = true
same_keyword Keyword.bool Keyword.bool = true
same_keyword _ _ = false

-- How often a keyword stands in a list.
abbrev pub count : Keyword → List Keyword → ℕ
count k [] = 0
count k (x ∷ xs) = (if same_keyword k x then 1 else 0) + count k xs

-- The keywords among specifiers.
abbrev pub keywords_of : List Specifier → List Keyword
keywords_of [] = []
keywords_of (keyword k ∷ xs) = k ∷ keywords_of xs
keywords_of (_ ∷ xs) = keywords_of xs

-- The bits after some keywords.
abbrev pub bits_of : List Keyword → ℕ → ℕ
bits_of [] s = s
bits_of (k ∷ ks) s = bits_of ks (add_keyword k s)
