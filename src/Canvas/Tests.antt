-- ===== src/Canvas/Tests.antt =====
-- The theorems about canvases at concrete inputs: positions, metadata and types are numbers.
use dark.Common.{ℕ, ℕ_discrete, ◌≡◌, ◌⊎◌, refl, true, Option, none, some, List, [], ◌∷◌, Chars, inl}
use dark.Http.Handlers.{Handler, blank}
use dark.Fluid.Expr.{Expr, e_blank, e_null}
use dark.Fluid.Update.{run}
use dark.Ops.Op.{Payloads, Op, set_handler, undo_tl, tl_savepoint, delete_tl, set_expr, tlid_of}
use dark.Ops.Undo.{Entry, preprocess}
use dark.Ops.Undo.Savepoint.{IsEdit}
use dark.Ops.Group.{oplist2tlid_oplists}
use dark.Canvas.State.{Canvas, handler, assign, apply_to_all_toplevels}
use dark.Canvas.State
use mathlib.Mathlib.Data.List.Defs.{dedup}
use dark.Canvas.Apply.{Language, apply_op, apply_ops, add_ops, marked, set_tl_expr}
use dark.Canvas.Apply.Cells.{cell}
use dark.Canvas.Apply.Frame.{apply_op-cell}
use dark.Canvas.Apply.Invariant.{IsSound}
use dark.Canvas.Apply.Sound.{apply_op-IsSound}
use dark.Canvas.Apply.Refused.{is_none, refuses, apply_op-refuses}
use dark.Canvas.Apply.Add.{StopsAt, add_ops-IsSound, add_ops_refused}

abbrev payloads : Payloads
payloads = record { pos = ℕ; expr = Expr; metadata = ℕ; definition = ℕ }

-- There is one type, whose name is not empty.
abbrev read_tipe : Chars → Option ℕ
read_tipe [] = none
read_tipe (c ∷ s) = some 1

abbrev language : Language Expr ℕ
language = record {
  code_blank = e_blank;
  replace_code = λ search replacement. run (λ _. replacement) search;
  tipe_of_string = read_tipe;
}

abbrev empty : Canvas payloads ℕ
empty = record {
  ops = [];
  handlers = λ _. none;
  dbs = λ _. none;
  user_functions = λ _. none;
  user_tipes = λ _. none;
  deleted_handlers = λ _. none;
  deleted_dbs = λ _. none;
  deleted_user_functions = λ _. none;
  deleted_user_tipes = λ _. none;
}

empty-IsSound : IsSound empty
empty-IsSound id = ((tt, tt, inl refl), (tt, tt, inl refl), inl refl, inl refl)

abbrev hello : Handler Expr
hello = record {
  tlid = 1;
  ast = e_null 5;
  spec = record { module_ = blank 2; name = blank 3; modifier = blank 4 };
}

abbrev put : Op payloads
put = set_handler 1 7 hello

abbrev with_hello : Canvas payloads ℕ
with_hello = State.set_handler 1 7 (handler hello) empty

put_applied : apply_op language true put empty ≡ some with_hello
unfolding apply_op
put_applied = refl

apply_op-cell_example : cell 2 with_hello ≡ cell 2 empty
unfolding tlid_of
apply_op-cell_example = apply_op-cell language true put empty with_hello 2 put_applied refl

apply_op-IsSound_example : IsSound with_hello
apply_op-IsSound_example =
    apply_op-IsSound language true put empty with_hello empty-IsSound put_applied

with_hello-IsSound : IsSound with_hello
with_hello-IsSound = apply_op-IsSound language true put empty with_hello empty-IsSound put_applied

-- Code in a handler is not set by this operation.
abbrev change : Op payloads
change = set_expr 1 9 (e_null 6)

apply_op-refuses_example : is_none (apply_op language true change with_hello) ≡ true
unfolding refuses State.set_handler assign
apply_op-refuses_example = apply_op-refuses language true change with_hello with_hello-IsSound

-- A deletion that is undone.
abbrev undone : List (Op payloads)
undone = put ∷ tl_savepoint 1 ∷ delete_tl 1 ∷ undo_tl 1 ∷ []

abbrev all_undone : Canvas payloads ℕ
all_undone = record with_hello { ops = oplist2tlid_oplists (dedup ℕ_discrete) undone }

undone_added : add_ops language (dedup ℕ_discrete) [] undone empty ≡ some all_undone
unfolding add_ops apply_ops apply_op preprocess
undone_added = refl

add_ops-IsSound_example :
    IsSound all_undone × (all_undone.ops ≡ oplist2tlid_oplists (dedup ℕ_discrete) undone)
add_ops-IsSound_example =
    add_ops-IsSound language (dedup ℕ_discrete) [] undone empty empty-IsSound all_undone
      undone_added

abbrev wrong : List (Op payloads)
wrong = put ∷ change ∷ []

wrong_stops : add_ops language (dedup ℕ_discrete) [] wrong empty ≡ none
unfolding add_ops apply_ops apply_op preprocess State.set_handler assign apply_to_all_toplevels
    set_tl_expr
wrong_stops = refl

add_ops_refused_example :
    (preprocess (marked true wrong) ≡ none)
    ⊎ ((reduced : List (Entry payloads)) × (stop : StopsAt language reduced empty) × (preprocess
            (marked true wrong)
          ≡ some reduced)
        × IsEdit stop.1)
add_ops_refused_example =
    add_ops_refused language (dedup ℕ_discrete) [] wrong empty empty-IsSound (true, put)
      ((true, change) ∷ []) refl (refl, refl) wrong_stops
