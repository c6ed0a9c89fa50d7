-- ===== src/Cfg/Variables/Meaning.antt =====
-- What a piece of a basic block does to one variable: an independent reading of the syntax that
-- `VariableVisitor` of cfg/bb.py visits, for blocks without nested functions and modified blocks.
use guppylang.Common.{Bool, false, not, ◌&&◌, ◌||◌, Option, none, some, String, string_eq, any}
use guppylang.Cfg.Syntax.{
  Expr, Exprs, Generators, Stmt, Stmts, Block, name, elements, attribute, subscript, starred,
  comprehension, comptime, other, no_exprs, expr_cons, no_generators, generator, assign, aug_assign,
  ann_assign, expr, return_stmt, nested_function, modified_block, no_stmts, stmt_cons, block,
}
use guppylang.Cfg.Variables.{name_nodes}

-- Whether a piece reads the variable before it binds it, and whether it binds it.
pub record Effect : Type 0 where
  pub exposed : Bool
  pub binds : Bool

abbrev pub nothing : Effect
nothing = record { exposed = false; binds = false }

infixr 40 ◌then◌
abbrev pub ◌then◌ : Effect → Effect → Effect
a then b = record { exposed = a.exposed || not a.binds && b.exposed; binds = a.binds || b.binds }

-- The variables that are bound inside are not bound outside.
abbrev pub scoped : Effect → Effect
scoped a = record { exposed = a.exposed; binds = false }

abbrev pub reads : Bool → Effect
reads b = record { exposed = b; binds = false }

module _ (x : String) where
  unfoldable mutual
    pub effect_expr : Expr → Effect
    effect_expr (name i y) = reads (string_eq.beq x y)
    effect_expr (elements es) = effect_exprs es
    effect_expr (attribute e) = effect_expr e
    effect_expr (subscript v i) = effect_expr v then effect_expr i
    effect_expr (starred e) = effect_expr e
    effect_expr (comprehension elt gens) = scoped (effect_generators gens then effect_expr elt)
    effect_expr (comptime e) = nothing
    effect_expr (other es) = effect_exprs es

    pub effect_exprs : Exprs → Effect
    effect_exprs no_exprs = nothing
    effect_exprs (expr_cons e es) = effect_expr e then effect_exprs es

    -- As the target of an assignment.
    pub effect_target : Expr → Effect
    effect_target (name i y) = record { exposed = false; binds = string_eq.beq x y }
    effect_target (elements es) = effect_targets es
    effect_target (attribute e) = effect_expr e
    effect_target (subscript v i) = effect_expr i then effect_expr v
    effect_target (starred e) = effect_target e
    effect_target (comprehension elt gens) = nothing
    effect_target (comptime e) = nothing
    effect_target (other es) = nothing

    pub effect_targets : Exprs → Effect
    effect_targets no_exprs = nothing
    effect_targets (expr_cons e es) = effect_target e then effect_targets es

    pub effect_generators : Generators → Effect
    effect_generators no_generators = nothing
    effect_generators (generator ts v next it t ifs gens) =
        (((effect_expr v then effect_targets ts) then effect_expr next) then effect_target t)
        then (effect_exprs ifs then effect_generators gens)

  abbrev pub effect_option : Option Expr → Effect
  effect_option none = nothing
  effect_option (some e) = effect_expr e

  unfoldable pub effect_stmt : Stmt → Effect
  effect_stmt (assign ts v) = effect_expr v then effect_targets ts
  effect_stmt (aug_assign t v) =
      effect_expr v then reads (any (λ p. string_eq.beq x p.1) (name_nodes t)) then effect_target t
  effect_stmt (ann_assign t v) = effect_option v then effect_target t
  effect_stmt (expr e) = effect_expr e
  effect_stmt (return_stmt e) = effect_option e
  effect_stmt (nested_function fun args g bs) = nothing
  effect_stmt (modified_block control power g bs) = nothing

  unfoldable pub effect_stmts : Stmts → Effect
  effect_stmts no_stmts = nothing
  effect_stmts (stmt_cons t ts) = effect_stmt t then effect_stmts ts

  unfoldable pub effect_block : Block → Effect
  effect_block (block ss pred) = effect_stmts ss then effect_option pred

-- A statement without a graph of its own.
abbrev pub IsFlat : Stmt → Type 0
IsFlat (nested_function fun args g bs) = ⊥
IsFlat (modified_block control power g bs) = ⊥
IsFlat _ = Unit

abbrev pub AllFlat : Stmts → Type 0
AllFlat no_stmts = Unit
AllFlat (stmt_cons t ts) = IsFlat t × AllFlat ts

abbrev pub IsFlatBlock : Block → Type 0
IsFlatBlock (block ss pred) = AllFlat ss
