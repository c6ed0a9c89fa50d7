-- ===== src/Cfg/Syntax.antt =====
-- What the visitor of cfg/bb.py tells apart in the syntax of a basic block: Python's expressions
-- and statements with the nodes of guppylang-internals/src/guppylang_internals/nodes.py.
use guppylang.Common.{ℕ, String, Option, List}
use guppylang.Cfg.Graph.{Graph}

mutual
  pub data Expr : Type 0 where
    -- `ast.Name`: the number stands for the position in the file, which tells two uses apart.
    name : ℕ → String → Expr
    -- `ast.Tuple` and `ast.List`
    elements : Exprs → Expr
    attribute : Expr → Expr
    subscript : (value slice : Expr) → Expr
    starred : Expr → Expr
    -- `DesugaredListComp`, `DesugaredArrayComp` and `DesugaredGeneratorExpr`
    comprehension : (elt : Expr) → Generators → Expr
    comptime : Expr → Expr
    -- Any other expression, with its children in the order of its fields.
    other : Exprs → Expr

  pub data Exprs : Type 0 where
    no_exprs : Exprs
    expr_cons : Expr → Exprs → Exprs

  pub data Generators : Type 0 where
    no_generators : Generators
    -- `iter_assign` is the assignment of `iter_value` to `iter_targets`.
    generator :
        (iter_targets : Exprs) (iter_value next_call iter target : Expr) (ifs : Exprs)
        → Generators
        → Generators

mutual
  pub data Stmt : Type 0 where
    assign : (targets : Exprs) (value : Expr) → Stmt
    aug_assign : (target value : Expr) → Stmt
    ann_assign : (target : Expr) (value : Option Expr) → Stmt
    expr : Expr → Stmt
    return_stmt : Option Expr → Stmt
    nested_function : String → (args : List String) → Graph → Blocks → Stmt
    modified_block : (control power : Exprs) → Graph → Blocks → Stmt

  pub data Stmts : Type 0 where
    no_stmts : Stmts
    stmt_cons : Stmt → Stmts → Stmts

  -- `BB.statements` and `BB.branch_pred`
  pub data Block : Type 0 where
    block : Stmts → Option Expr → Block

  -- The blocks of a `CFG`, in the order of `cfg.bbs`.
  pub data Blocks : Type 0 where
    no_blocks : Blocks
    block_cons : Block → Blocks → Blocks

-- The nodes that the stats keep for messages.
pub data AstNode : Type 0 where
  expr_node : Expr → AstNode
  stmt_node : Stmt → AstNode
