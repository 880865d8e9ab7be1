-- ===== src/Token.antt =====
-- Tokens: the tags of src/token.h (`TokenTag::Values`), the token itself and its predicates (src/token.cpp).
use kcc.Location.{Location}
use kcc.Prelude.{Bool, true, false, ◌||◌, Bytes}

-- `do_tag`, `if_tag`, `else_tag` and `none_tag` stand for kDo, kIf, kElse and kNone.
pub data Tag : Type 0 where
  auto break case char const continue default do_tag double else_tag enum extern float : Tag
  for goto if_tag inline int long register restrict return short signed sizeof static : Tag
  struct switch typedef union unsigned void volatile while alignas alignof atomic bool : Tag
  complex generic imaginary noreturn static_assert thread_local left_square right_square : Tag
  left_paren right_paren left_brace right_brace period arrow plus_plus minus_minus : Tag
  postfix_plus_plus postfix_minus_minus amp star plus minus tilde exclaim slash percent : Tag
  less_less greater_greater less greater less_equal greater_equal equal_equal : Tag
  exclaim_equal caret pipe amp_amp pipe_pipe question colon semicolon ellipsis equal : Tag
  star_equal slash_equal percent_equal plus_equal minus_equal less_less_equal : Tag
  greater_greater_equal amp_equal caret_equal pipe_equal comma sharp sharp_sharp : Tag
  identifier integer floating_point character string_literal offsetof huge_val inff : Tag
  func_name asm attribute func_signature extension typeof typeid none_tag eof : Tag

pub record Token : Type 0 where
  pub tag : Tag
  pub str : Bytes
  pub loc : Location

abbrev pub is_eof_tag : Tag → Bool
is_eof_tag Tag.eof = true
is_eof_tag _ = false

-- `Token::IsEof`.
abbrev pub is_eof : Token → Bool
is_eof t = is_eof_tag t.tag

-- `Token::IsTypeSpecQual`, as a test of the tag.
unfoldable pub is_type_spec_qual : Tag → Bool
is_type_spec_qual Tag.void = true
is_type_spec_qual Tag.char = true
is_type_spec_qual Tag.short = true
is_type_spec_qual Tag.int = true
is_type_spec_qual Tag.long = true
is_type_spec_qual Tag.float = true
is_type_spec_qual Tag.double = true
is_type_spec_qual Tag.signed = true
is_type_spec_qual Tag.unsigned = true
is_type_spec_qual Tag.bool = true
is_type_spec_qual Tag.complex = true
is_type_spec_qual Tag.atomic = true
is_type_spec_qual Tag.struct = true
is_type_spec_qual Tag.union = true
is_type_spec_qual Tag.enum = true
is_type_spec_qual Tag.const = true
is_type_spec_qual Tag.restrict = true
is_type_spec_qual Tag.volatile = true
is_type_spec_qual Tag.typeof = true
is_type_spec_qual _ = false

-- The further tags of `Token::IsDeclSpec`.
is_other_decl_spec : Tag → Bool
is_other_decl_spec Tag.attribute = true
is_other_decl_spec Tag.inline = true
is_other_decl_spec Tag.noreturn = true
is_other_decl_spec Tag.alignas = true
is_other_decl_spec Tag.static_assert = true
is_other_decl_spec Tag.typedef = true
is_other_decl_spec Tag.extern = true
is_other_decl_spec Tag.static = true
is_other_decl_spec Tag.thread_local = true
is_other_decl_spec Tag.auto = true
is_other_decl_spec Tag.register = true
is_other_decl_spec _ = false

-- `Token::IsDeclSpec`.
unfoldable pub is_decl_spec : Tag → Bool
unfolding is_type_spec_qual is_other_decl_spec
is_decl_spec t = is_type_spec_qual t || is_other_decl_spec t
