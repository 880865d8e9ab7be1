-- ===== src/Lex/Scanner.antt =====
-- The state of `Scanner` (src/lex.h) and its primitive operations (src/lex.cpp).
--
-- `source_` with its terminating zero and `index_` are two lists: `before` holds the bytes read, the
-- last one first, so `index_` is its length; `after` holds the others and the terminator. So `after`
-- is empty once the terminator itself has been read, and a further read is out of the text's bounds.
-- `buffer` holds the bytes of `buffer_`, the last one first.
use kcc.Location.{Location, initial_location, next_column, next_row, prev_row, prev_column}
use kcc.Prelude.{
  ℕ, suc, Bool, true, false, [], ◌∷◌, ◌++◌, Option, none, some, Bytes, length, rev_onto,
  if◌then◌else◌, ◌==◌,
}
use kcc.Token.{Tag, Token}

-- The calls of `Error`, the failed assertions, a read behind the terminator, an exception of
-- `std::stoi`, and the fuel of a loop running out.
pub data Error : Type 0 where
  invalid_input missing_char_end missing_string_end : Error
  unknown_escape no_hex_digits no_oct_digits no_ucn_digits : Error
  empty_buffer bad_location bad_digit bad_row empty_file_name : Error
  out_of_bounds no_number out_of_fuel : Error

pub data Result {ℓ} (A : Type ℓ) : Type ℓ where
  ok : A → Result A
  err : Error → Result A

pub record Scanner : Type 0 where
  pub before : Bytes
  pub after : Bytes
  pub loc : Location
  pub token_loc : Location
  pub buffer : Bytes

-- `Scanner::Scanner(preprocessed_code)`.
abbrev pub new_scanner : Bytes → Scanner
new_scanner source = record {
  before = [];
  after = source ++ (0 ∷ []);
  loc = initial_location;
  token_loc = initial_location;
  buffer = [];
}

abbrev pub M : Type 0 → Type 0
M A = Scanner → Result (A × Scanner)

unfoldable pub bind_in : {A B : Type 0} → Result (A × Scanner) → (A → M B) → Result (B × Scanner)
bind_in (ok (a, s)) f = f a s
bind_in (err e) f = err e

infixl 5 ◌>>=◌ ◌>>◌
unfoldable pub ◌>>=◌ : {A B : Type 0} → M A → (A → M B) → M B
unfolding bind_in
◌>>=◌ m f s = bind_in (m s) f

abbrev pub ◌>>◌ : {B : Type 0} → M (Unit {0}) → M B → M B
m >> k = m >>= λ _. k

unfoldable pub pure : {A : Type 0} → A → M A
pure a s = ok (a, s)

unfoldable pub fail : {A : Type 0} → Error → M A
fail e s = err e

-- The fuel of a loop that reads a byte in each round.
abbrev pub budget : Scanner → ℕ
budget s = suc (length s.after)

-- Runs a loop on that fuel.
unfoldable pub with_budget : {A : Type 0} → (ℕ → M A) → M A
with_budget loop s = loop (budget s) s

-- `HasNext`: the terminator is not a next byte.
abbrev pub has_next_in : Bytes → Bool
has_next_in (_ ∷ _ ∷ _) = true
has_next_in _ = false

unfoldable pub has_next : M Bool
has_next s = ok (has_next_in s.after, s)

unfoldable pub peek_in : Bytes → M ℕ
peek_in [] s = err out_of_bounds
peek_in (c ∷ _) s = ok (c, s)

-- `Scanner::Peek`.
unfoldable pub peek : M ℕ
unfolding peek_in
peek s = peek_in s.after s

abbrev pub moved : ℕ → ℕ → Location → Location
moved c index l = if c == b'\n' then next_row index l else next_column l

unfoldable pub next_in : Bool → Bytes → M ℕ
next_in push [] s = err out_of_bounds
next_in push (c ∷ cs) s = ok (
  c,
  record s {
    before = c ∷ s.before;
    after = cs;
    loc = moved c (suc (length s.before)) s.loc;
    buffer = if push then c ∷ s.buffer else s.buffer;
  },
)

-- `Scanner::Next`.
unfoldable pub next : Bool → M ℕ
unfolding next_in
next push s = next_in push s.after s

unfoldable pub located : Option Location → Scanner → Result (Unit {0} × Scanner)
located none s = err bad_location
located (some l) s = ok (tt, record s { loc = l })

unfoldable pub put_back_in : Bytes → Bytes → M (Unit {0})
put_back_in [] buffer s = err out_of_bounds
put_back_in (c ∷ cs) [] s = err empty_buffer
put_back_in (c ∷ cs) (_ ∷ buffer) s =
    located (if c == b'\n' then prev_row s.loc else prev_column s.loc)
      (record s { before = cs; after = c ∷ s.after; buffer = buffer })

-- `Scanner::PutBack`.
unfoldable pub put_back : M (Unit {0})
unfolding put_back_in located
put_back s = put_back_in s.before s.buffer s

-- `Scanner::Test`.
unfoldable pub test : ℕ → M Bool
test c = do d ← peek; pure (d == c)

-- `Scanner::Try`.
unfoldable pub try : ℕ → M Bool
try c = do d ← peek; if d == c then (do _ ← next true; pure true) else pure false

-- `Scanner::IsUCN`.
unfoldable pub is_ucn : ℕ → M Bool
is_ucn ch =
    if ch == b'\\' then (do u ← test b'u'; if u then pure true else test b'U') else pure false

-- `Scanner::MakeToken`.
unfoldable pub make_token : Tag → M Token
make_token tag s =
    ok (
      record { tag = tag; str = rev_onto s.buffer []; loc = s.token_loc },
      record s { buffer = [] },
    )

-- `Scanner::MarkLocation`.
unfoldable pub mark_location : M (Unit {0})
mark_location s = ok (tt, record s { token_loc = s.loc })

unfoldable pub clear_buffer : M (Unit {0})
clear_buffer s = ok (tt, record s { buffer = [] })

unfoldable pub update_location : (Location → Location) → M (Unit {0})
update_location f s = ok (tt, record s { loc = f s.loc })
