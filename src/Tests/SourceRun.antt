-- ===== src/Tests/SourceRun.antt =====
-- A source that the model of src/main.c scans, parses, checks and hands to the interpreter.
use kratos_lang.Lexer.Next.{dump_tokens}
use kratos_lang.Parser.State.{advance_token, parser_init, match, expect_name}
use kratos_lang.Parser.Literals.{token_to_number_string, strtoll}
use kratos_lang.Parser.Expr.{
  taken_text, list_until, primary_of, parse_primary, postfix_of, postfix_loop, parse_postfix,
  parse_unary, binary_loop, binary_level, parse_multiplicative, parse_additive, parse_comparison,
  parse_equality, parse_and, parse_or, parse_expression,
}
use kratos_lang.Parser.Stmt.{
  token_to_kratos_type, parse_type_extended, is_var_decl_starting, while_parse, parse_block,
  parse_yield_stmt, statement_of, parse_statement,
}
use kratos_lang.Parser.Program.{
  parse_function_decl, parse_declaration, parse_top_level, parser_parse_program, parse_source,
}
use kratos_lang.Semantic.State.{scope_find_local, scope_add, enter_scope, leave_scope}
use kratos_lang.Semantic.Types.{type_eq, types_equal, assignable}
use kratos_lang.Semantic.Expr.{check_inits}
use kratos_lang.Semantic.Stmt.{check_yield, check_yield_stmt, check_branches}
use kratos_lang.Semantic.Returns.{is_null, all_return}
use kratos_lang.Semantic.Program.{
  set_function, check_params, check_function, register_records, register_functions,
  check_declaration, check_declarations, run_passes,
}
use kratos_lang.Wield.Expand.{append_nodes, expand_nodes, expand_wields}
use kratos_lang.Wield.Analyze.{source_pushed}
use kratos_lang.Driver.Main.{main}
use kratos_lang.Prelude.{◌≡◌, refl, Bytes, codes, [], some, none, false}
use kratos_lang.Prelude.Int.{pos}
use kratos_lang.Wield.Expand.{Files}
use kratos_lang.Driver.Main.{interprets}
use kratos_lang.Ast.{
  AstNode, AstNodeList, cons, nil, func_decl, type_int, block, yield_stmt, literal_int,
}

abbrev pub no_files : Files
no_files = record { opens = λ path. false; read_file = λ path. none }

abbrev pub yielding_source : Bytes
yielding_source = codes "k_int craft main(){yield 1;}"

abbrev pub yielding_body : AstNode
yielding_body = block 1 (cons (yield_stmt 1 (literal_int 1 (pos 1))) nil)

abbrev pub yielding_program : AstNodeList
yielding_program = cons (func_decl 1 type_int none (codes "main") nil yielding_body) nil

pub yielding_run : main no_files 0 yielding_source [] ≡ some (interprets yielding_program)
unfolding dump_tokens advance_token parser_init match expect_name token_to_number_string strtoll
    taken_text list_until primary_of parse_primary postfix_of postfix_loop parse_postfix parse_unary
    binary_loop binary_level parse_multiplicative parse_additive parse_comparison parse_equality
    parse_and parse_or parse_expression token_to_kratos_type parse_type_extended
    is_var_decl_starting while_parse parse_block parse_yield_stmt statement_of parse_statement
    parse_function_decl parse_declaration parse_top_level parser_parse_program parse_source
    scope_find_local scope_add enter_scope leave_scope type_eq types_equal assignable check_inits
    check_yield check_yield_stmt check_branches is_null all_return set_function check_params
    check_function register_records register_functions check_declaration check_declarations
    run_passes append_nodes expand_nodes expand_wields source_pushed main
yielding_run = refl
