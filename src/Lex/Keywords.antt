-- ===== src/Lex/Keywords.antt =====
-- The keyword table of src/dict.cpp.
use kcc.Prelude.{List, [], ◌∷◌, Bytes, codes, same_bytes, if◌then◌else◌}
use kcc.Token.{Tag}

abbrev pub Keyword : Type 0
Keyword = record { spelling : Bytes; tag : Tag }

abbrev word : Bytes → Tag → Keyword
word s t = record { spelling = s; tag = t }

-- `KeywordsDictionary::KeywordsDictionary`.
unfoldable pub keywords : List Keyword
keywords =
    word (codes "auto") Tag.auto
    ∷ word (codes "break") Tag.break
    ∷ word (codes "case") Tag.case
    ∷ word (codes "char") Tag.char
    ∷ word (codes "const") Tag.const
    ∷ word (codes "continue") Tag.continue
    ∷ word (codes "default") Tag.default
    ∷ word (codes "do") Tag.do_tag
    ∷ word (codes "double") Tag.double
    ∷ word (codes "else") Tag.else_tag
    ∷ word (codes "enum") Tag.enum
    ∷ word (codes "extern") Tag.extern
    ∷ word (codes "float") Tag.float
    ∷ word (codes "for") Tag.for
    ∷ word (codes "goto") Tag.goto
    ∷ word (codes "if") Tag.if_tag
    ∷ word (codes "inline") Tag.inline
    ∷ word (codes "int") Tag.int
    ∷ word (codes "long") Tag.long
    ∷ word (codes "register") Tag.register
    ∷ word (codes "restrict") Tag.restrict
    ∷ word (codes "return") Tag.return
    ∷ word (codes "short") Tag.short
    ∷ word (codes "signed") Tag.signed
    ∷ word (codes "sizeof") Tag.sizeof
    ∷ word (codes "static") Tag.static
    ∷ word (codes "struct") Tag.struct
    ∷ word (codes "switch") Tag.switch
    ∷ word (codes "typedef") Tag.typedef
    ∷ word (codes "union") Tag.union
    ∷ word (codes "unsigned") Tag.unsigned
    ∷ word (codes "void") Tag.void
    ∷ word (codes "volatile") Tag.volatile
    ∷ word (codes "while") Tag.while
    ∷ word (codes "_Alignas") Tag.alignas
    ∷ word (codes "_Alignof") Tag.alignof
    ∷ word (codes "_Atomic") Tag.atomic
    ∷ word (codes "_Bool") Tag.bool
    ∷ word (codes "_Complex") Tag.complex
    ∷ word (codes "_Generic") Tag.generic
    ∷ word (codes "_Imaginary") Tag.imaginary
    ∷ word (codes "_Noreturn") Tag.noreturn
    ∷ word (codes "_Static_assert") Tag.static_assert
    ∷ word (codes "_Thread_local") Tag.thread_local
    ∷ word (codes "__func__") Tag.func_name
    ∷ word (codes "__builtin_offsetof") Tag.offsetof
    ∷ word (codes "__builtin_huge_val") Tag.huge_val
    ∷ word (codes "__builtin_inff") Tag.inff
    ∷ word (codes "typeof") Tag.typeof
    ∷ word (codes "__typeof__") Tag.typeof
    ∷ word (codes "__attribute__") Tag.attribute
    ∷ word (codes "__extension__") Tag.extension
    ∷ word (codes "__FUNCTION__") Tag.func_name
    ∷ word (codes "__PRETTY_FUNCTION__") Tag.func_signature
    ∷ word (codes "__inline") Tag.inline
    ∷ word (codes "__alignof__") Tag.alignof
    ∷ word (codes "__inline__") Tag.inline
    ∷ word (codes "__restrict") Tag.restrict
    ∷ word (codes "__restrict__") Tag.restrict
    ∷ word (codes "__signed__") Tag.signed
    ∷ word (codes "__volatile__") Tag.volatile
    ∷ word (codes "asm") Tag.asm
    ∷ word (codes "__asm__") Tag.asm
    ∷ word (codes "__asm") Tag.asm
    ∷ word (codes "typeid") Tag.typeid
    ∷ []

-- `unordered_map::find` on the table; the spellings differ.
unfoldable pub find_in : List Keyword → Bytes → Tag
find_in [] name = Tag.identifier
find_in (k ∷ ks) name = if same_bytes k.spelling name then k.tag else find_in ks name

-- `KeywordsDictionary::Find`.
unfoldable pub find : Bytes → Tag
unfolding keywords find_in
find name = find_in keywords name
