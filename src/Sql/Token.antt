-- ===== src/Sql/Token.antt =====
-- include/sql/lexer.hpp: tokens. A text is the list of its bytes.
use Prim.Native.Char.{code}
use Prim.Native.String.{String}
use somedb.Base.{ℕ, Bool, true, false, List, [], ◌∷◌, ◌==◌, ◌&&◌, ◌||◌, if◌then◌else◌}

abbrev pub Text : Type 0
Text = List ℕ

-- The bytes of an ASCII literal.
abbrev pub text : String → Text
text String.[] = []
text (String.◌∷◌ c s) = code c ∷ text s

pub data TokenType : Type 0 where
  illegal keyword identifier int string equals plus minus comma semicolon asterisk slash : TokenType
  lparen rparen lbrace rbrace lt gt lt_eq gt_eq eof : TokenType

pub record Token : Type 0 where
  pub type : TokenType
  pub literal : Text

-- `std::string` equality.
unfoldable pub text_eq : Text → Text → Bool
text_eq [] [] = true
text_eq [] (y ∷ ys) = false
text_eq (x ∷ xs) [] = false
text_eq (x ∷ xs) (y ∷ ys) = x == y && text_eq xs ys

unfoldable pub any_eq : Text → List Text → Bool
unfolding text_eq
any_eq s [] = false
any_eq s (k ∷ ks) = text_eq k s || any_eq s ks

abbrev pub keywords : List Text
keywords =
    text "SELECT"
    ∷ text "UPDATE"
    ∷ text "DELETE"
    ∷ text "INSERT"
    ∷ text "WHERE"
    ∷ text "FROM"
    ∷ text "AS"
    ∷ text "OR"
    ∷ []

unfoldable pub get_string_type : Text → TokenType
unfolding any_eq
get_string_type s = if any_eq s keywords then TokenType.keyword else TokenType.identifier
