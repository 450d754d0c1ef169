-- ===== src/Lib.antt =====
-- A model of the authorization core of django-zed-rebac, which decides whether a subject holds a
-- permission on a resource by a schema in the .zed language and stored relationship tuples.
--
-- The parts and how they meet. A schema text is lexed and parsed into a syntax tree, which is also
-- rendered back. Overrides stored in the database are composed into the tree. The dependency program
-- reads the tree for the compiler. A point check walks a permission expression; its uncertain
-- answers are reduced by a decision diagram. Caveats on tuples are evaluated in formulas of three
-- values, and bound the rows of a read from below and above. A row that is not stored yet is
-- checked over the relations proposed for it. The ambient actor and bypass say for whom a check is
-- made and whether it is made at all; a cache keeps the answers of one scope, and a token keeps
-- reads fresh after writes. References to objects and subjects are the vocabulary of all.
--
-- Which file models which part:
--   Types        src/rebac/types.py: ObjectRef, SubjectRef, CheckResult and Zookie, `__str__` as
--                print_*, `parse` as parse_* (none is a ValueError).
--   Schema       src/rebac/schema/ast.py, and find_relation and find_permission of
--                src/rebac/schema/walker.py.
--                Documents has the persisted form of a backing, Validation the cross-checks of
--                src/rebac/schema/parser.py.
--   Actors       src/rebac/actors.py: Settings is what is read of the settings, Ambient the two
--                context variables; resolve, require_sudo_allowed and the scopes by their names
--                (sudo_scope is `_sudo_state_context`). A scope takes the block it encloses as a
--                function of the ambient state.
--   Walker       src/rebac/schema/walker.py: eval_expr with its callbacks as fields of Context, the
--                tri_* operators, and the admission of subjects and stored rows.
--   Parser       src/rebac/schema/parser.py: Lexer is `_tokenize`, Expr the methods
--                `_parse_expr_*`, Subjects those of type unions. The character classes of Python
--                outside ASCII are the parameter Unicode.
--   Rendering    src/rebac/schema/rendering.py: `_render_expr` and render_allowed_subject.
--   Bdd          src/rebac/compile/evaluate.py: `_BDD` with its node list, unique table and cache,
--                and relevant.
--   Caveats      src/rebac/caveats.py: `evaluate` and `_coerce_param`; the CEL library is the
--                parameter Cel, and a context is a dictionary in which None is a value.
--   Formulas     src/rebac/compile/formulas.py: `Evaluation`, with None and True as always, False as
--                never; the label of a condition is the parameter key.
--                Combining is `_combine`.
--   Conditions   src/rebac/compile/conditions.py: the loop of `CaveatVerdicts.prepare` over the rows
--                that its query selects, and condition_q as a test of a row.
--   Residual     src/rebac/compile/evaluate.py: Rows is `_rows`, over the stored rows and what the
--                database answers for live backings; Names has named, subjects and their walks.
--   Preflight    src/rebac/preflight.py: check_new and its callbacks; the backend's check_access,
--                the codec of identifiers and the names that an action depends on are arguments.
--   Composition  src/rebac/composition.py: `_compose_permission`, `_compose_caveat` and the first
--                half of compose_tagged; grouped rows are an argument.
--   Evaluator    src/rebac/evaluator.py: the check cache, and in Visibility `_held_many`; the
--                backend's check_access and held_many are parameters. A call has its context by
--                the summary of `_ctx_key`.
--   Consistency  src/rebac/consistency.py; the reading of a number is a parameter.
--   Program      src/rebac/compile/program.py: `_expr_dependencies`, `_arrow_vias`, the tables.
--   Codenames    src/rebac/codenames.py.
--   Prelude      shared names, equality tests, lists over the native numbers and texts, which are
--                lists of code points.
--   Tests        runs on concrete inputs, and instances of the theorems.
--
-- Bounds and fuel. The walk takes one unit of fuel for each permission it enters; a permission is
-- not entered twice on a path, so the number of permissions of the definition is enough. The
-- expression parser spends at most four units on a token and gets four for each and four more. The
-- lexer gets a unit for each character. A type union takes a unit for each subject. On the diagram,
-- apply gets more than the sum of its two indices and negate more than its index, as children are
-- older nodes; the search for relevant variables gets two units for each node and two more. The
-- walks named and subjects take a unit for each call, and no site is entered twice on a path, so
-- that one more than the sites there are is enough. The limit of depth of a walk and the size of
-- the cache are arguments, as they are settings of the program.
--
-- Not modelled: the compiled queries over Django models, the stores of relationships, roles and
-- memberships, signals, middleware and the other glue to the framework, which need a model of the
-- database; the labels of caveat formulas, which are digests; the selection of the relations whose
-- conditions a read can meet; the residual of a check, which fills the diagram; the parser of
-- definitions and caveats, and the search for cycles. Messages of errors and log output are left
-- out everywhere; an error is told apart by its kind.
pub mod Prelude
pub mod Types
pub mod Schema
pub mod Actors
pub mod Walker
pub mod Parser
pub mod Rendering
pub mod Bdd
pub mod Caveats
pub mod Formulas
pub mod Conditions
pub mod Residual
pub mod Preflight
pub mod Composition
pub mod Evaluator
pub mod Consistency
pub mod Program
pub mod Codenames
mod Tests
