-- ===== src/Parser/Gives.antt =====
-- What the functions of src/parser/parser.c give, where they give something, and the rules for `do` blocks.
use kratos_lang.Prelude.{ℕ, zero, suc, ◌≡◌, Bool, true, false, Option, none, some, if◌then◌else◌}
use kratos_lang.Lexer.Token.{TokenType}
use kratos_lang.Ast.{AstNode, AstNodeList, cons, nil}
use kratos_lang.Parser.State.{◌>>=◌, P, Parser, continue_with, get, pure}
use kratos_lang.Parser.Stmt.{while_parse}

-- What is read, where something is read, is as `q` says.
pub data Given {A : Type 0} (q : A → Bool) : Option (A × Parser) → Type 0 where
  nothing : Given q none
  given : (a : A) (parser : Parser) → q a ≡ true → Given q (some (a, parser))

abbrev pub Gives : {A : Type 0} → (A → Bool) → P A → Type 0
Gives {A} q m = (parser : Parser) → Given q (m parser)

Given-bind :
    {A B : Type 0} {q : A → Bool} {r : B → Bool} (x : Option (A × Parser)) (f : A → P B)
    → Given q x
    → ((a : A) → q a ≡ true → Gives r (f a))
    → Given r (continue_with x f)
Given-bind _ f nothing k = nothing
Given-bind _ f (given a parser h) k = k a h parser

pub Gives-bind :
    {A B : Type 0} {q : A → Bool} {r : B → Bool} (m : P A) (f : A → P B)
    → Gives q m
    → ((a : A) → q a ≡ true → Gives r (f a))
    → Gives r (m >>= f)
Gives-bind m f h k parser = Given-bind (m parser) f (h parser) k

Given-after :
    {A B : Type 0} {r : B → Bool} (x : Option (A × Parser)) (f : A → P B)
    → ((a : A) → Gives r (f a))
    → Given r (continue_with x f)
Given-after none f k = nothing
Given-after (some (a, parser)) f k = k a parser

-- Whatever the first part reads.
pub Gives-after :
    {A B : Type 0} {r : B → Bool} (m : P A) (f : A → P B)
    → ((a : A) → Gives r (f a))
    → Gives r (m >>= f)
Gives-after m f k parser = Given-after (m parser) f k

pub Gives-pure : {A : Type 0} {q : A → Bool} (a : A) → q a ≡ true → Gives q (pure a)
Gives-pure a h parser = given a parser h

pub Gives-if :
    {A : Type 0} {q : A → Bool} (b : Bool) (m k : P A)
    → Gives q m
    → Gives q k
    → Gives q (if b then m else k)
Gives-if true m k g h = g
Gives-if false m k g h = h

Given-map :
    {A : Type 0} {q r : A → Bool} (x : Option (A × Parser))
    → Given q x
    → ((a : A) → q a ≡ true → r a ≡ true)
    → Given r x
Given-map _ nothing k = nothing
Given-map _ (given a parser h) k = given a parser (k a h)

pub Gives-map :
    {A : Type 0} {q r : A → Bool} (m : P A)
    → Gives q m
    → ((a : A) → q a ≡ true → r a ≡ true)
    → Gives r m
Gives-map m h k parser = Given-map (m parser) (h parser) k

pub Given-holds :
    {A : Type 0} {q : A → Bool} {a : A} {parser : Parser} → Given q (some (a, parser)) → q a ≡ true
Given-holds (given a parser h) = h

-- A loop gives a list whose nodes are as `q` says, where `qs` says this of each node.
pub while_parse-Gives :
    (q : AstNode → Bool) (qs : AstNodeList → Bool)
    → qs nil ≡ true
    → ((node : AstNode) (nodes : AstNodeList)
        → q node ≡ true
        → qs nodes ≡ true
        → qs (cons node nodes) ≡ true)
    → (test : TokenType → Bool) (item : P AstNode) (fuel : ℕ) → Gives q item
    → Gives qs (while_parse test item fuel)
unfolding while_parse
while_parse-Gives q qs n c test item zero h = λ parser. nothing
while_parse-Gives q qs n c test item (suc fuel) h = Gives-after get _ λ parser.
    Gives-if (test parser.current.type) _ _
      (Gives-bind item _ h λ node p.
        Gives-bind (while_parse test item fuel) _ (while_parse-Gives q qs n c test item fuel h)
          λ nodes ps. Gives-pure (cons node nodes) (c node nodes p ps))
      (Gives-pure nil n)
