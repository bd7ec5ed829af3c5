-- ===== src/Fluid/Tests.antt =====
-- The theorems about expressions at concrete inputs.
use dark.Common.Search.{head}
use dark.Common.{
  ℕ, ap, length, same_text, ◌+◌, ◌≤◌, ◌≡◌, refl, Bool, true, false, Option, none, some, List, [],
  ◌∷◌, codes, Chars, arith, All, any, if◌then◌else◌,
}
use dark.Fluid.Pattern.{fp_variable}
use dark.Fluid.Expr.{
  Expr, no_rail, no_exprs, expr, no_fields, field, no_cases, case, to_id, e_integer, e_blank, e_let,
  e_bin_op, e_variable, e_list, e_record, e_pipe, e_null, e_left_partial, e_match,
}
use dark.Fluid.Find.{find, nodes, find-nodes, nodes-children}
use dark.Fluid.Update.{update, is_found}
use dark.Fluid.Update.Replace.{replace}
use dark.Fluid.Update.Replace.Merged.{Cut, IsSplitWhen, Replacing, find-replace}
use dark.Fluid.Parent.{find_parent, ancestors, consed}
use dark.Fluid.Parent.Edges.{edges, find_parent-edges}
use dark.Fluid.Parent.Ancestors.{head-ancestors}
use dark.Fluid.Empty.{is_empty, no_text, names, is_empty-e_record}
use dark.Fluid.Collect.{filter_map, filter_map-nodes}
use dark.Fluid.Variables.{rename_variable_uses, remove_variable_use}
use dark.Fluid.Variables.Uses.{uses}
use dark.Fluid.Variables.Rename.{remove_variable_use_lem}
use dark.Fluid.Variables.Substituted.{bound, one_name, substituted}
use dark.Fluid.Variables.Renaming.{rename_variable_uses-substituted}
use dark.Fluid.Clone.{clone}
use dark.Fluid.Clone.Plain.{plain}
use dark.Fluid.Clone.Same.{plain-clone}
use dark.Fluid.Clone.Drawn.{Drawn, clone-Drawn}
use dark.Fluid.Traverse.{pre_traversal}
use dark.Fluid.Traverse.Steps.{Returns}
use dark.Fluid.Traverse.Ends.{size, pre_traversal_ends}

-- `let x = 5 in [x; y + _]`
abbrev sum : Expr
sum = e_bin_op 5 (codes "+") (e_variable 6 (codes "y")) (e_blank 7) no_rail

abbrev items : Expr
items = e_list 3 (expr (e_variable 4 (codes "x")) (expr sum no_exprs))

abbrev sample : Expr
sample = e_let 1 (codes "x") (e_integer 2 (codes "5")) items

find-nodes_example : find 6 sample ≡ some (e_variable 6 (codes "y"))
unfolding nodes to_id
find-nodes_example = find-nodes 6 sample

abbrev nulled : Expr → Expr
nulled _ = e_null 6

-- All before the first element that passes, and the rest.
abbrev split_when : (Expr → Bool) → List Expr → List Expr × List Expr
split_when p [] = ([], [])
split_when p (e ∷ es) =
    let (before, after) = split_when p es in if p e then ([], e ∷ es) else (e ∷ before, after)

split_when_step :
    (test : Expr → Bool) (e : Expr) (es : List Expr) (parts : List Expr × List Expr) (b : Bool)
    → test e ≡ b
    → Cut test es parts
    → Cut test (e ∷ es) (if b then ([], e ∷ es) else (e ∷ parts.0, parts.1))
split_when_step test e es parts true h (at, none_before, head) = (refl, tt, h)
split_when_step test e es parts false h (at, none_before, head) =
    (ap (λ l. e ∷ l) at, (h, none_before), head)

split_when_splits : IsSplitWhen split_when
split_when_splits test [] = (refl, tt, tt)
split_when_splits test (e ∷ es) =
    split_when_step test e es (split_when test es) (test e) refl (split_when_splits test es)

abbrev two : Expr
two = e_pipe 20 (expr (e_blank 21) (expr (e_blank 22) no_exprs))

-- A pipe goes into a pipe.
abbrev piped : Expr
piped = e_pipe 10 (expr (e_integer 11 (codes "1")) (expr (e_blank 12) (expr (e_blank 13) no_exprs)))

blank_found : is_found (find 12 piped) ≡ true
unfolding find
blank_found = refl

pipe_fresh : find (to_id two) piped ≡ none
unfolding find to_id
pipe_fresh = refl

find-replace_example :
    (place : ℕ) × (result : Expr) × Replacing 12 two (find_parent 12 piped) place result
    × (replace split_when two 12 piped ≡ update true (λ _. result) place piped)
    × (find 20 (replace split_when two 12 piped).ast ≡ some result)
    × ((replace split_when two 12 piped).reported ≡ false)
unfolding to_id
find-replace_example = find-replace split_when split_when_splits two 12 piped blank_found pipe_fresh

find_parent-edges_example : find_parent 6 sample ≡ some sum
unfolding edges to_id
find_parent-edges_example = find_parent-edges 6 sample

-- The parent of `x` is the list, but the nearest ancestor is said to be the `let`.
head-ancestors_example : head (ancestors 4 sample) ≡ some sample
unfolding find_parent consed
head-ancestors_example = head-ancestors 4 sample

abbrev unnamed : Expr → Option ℕ
unnamed (e_blank id) = some id
unnamed _ = none

filter_map-nodes_example : filter_map unnamed piped ≡ 12 ∷ 13 ∷ []
unfolding nodes
filter_map-nodes_example = filter_map-nodes unnamed piped

-- `let x = y in let y = x in y`: the last `y` is another one.
abbrev shadowed : Chars → Expr
shadowed free_name =
    e_let 1 (codes "x") (e_variable 2 free_name)
      (e_let 3 (codes "y") (e_variable 4 (codes "x")) (e_variable 5 (codes "y")))

rename_variable_uses-substituted_example :
    rename_variable_uses (codes "y") (codes "z") (shadowed (codes "y")) ≡ shadowed (codes "z")
unfolding substituted bound one_name same_text
rename_variable_uses-substituted_example =
    rename_variable_uses-substituted (codes "y") (codes "z") (shadowed (codes "y"))

-- `gid` as a counter.
abbrev count : ℕ → ℕ × ℕ
count n = (n, n + 1)

remove_variable_use_example :
    (uses (codes "y") (remove_variable_use count (codes "y") sample 30).0 ≡ false)
    × (uses (codes "x") (remove_variable_use count (codes "y") sample 30).0
        ≡ uses (codes "x") sample)
unfolding same_text
remove_variable_use_example = remove_variable_use_lem count (codes "y") (codes "x") sample 30 refl

abbrev partial : Expr
partial =
    e_match 1 (e_left_partial 2 (codes "if") (e_blank 3))
      (case (fp_variable 1 4 (codes "x")) (e_variable 5 (codes "x")) no_cases)

plain-clone_example : plain (clone count partial 30).0 ≡ plain partial
plain-clone_example = plain-clone count partial 30

clone-Drawn_example : All (Drawn count) (nodes (clone count partial 30).0)
clone-Drawn_example = clone-Drawn count partial 30

nulled_smaller : (e : Expr) → size (nulled e) ≤ size e
unfolding nodes
nulled_smaller e = omega (arith, ap length (nodes-children e))

seven_nodes : size sample ≤ 7
unfolding nodes
seven_nodes = omega arith

pre_traversal_ends_example : Returns (pre_traversal nulled 7 sample)
pre_traversal_ends_example = pre_traversal_ends nulled nulled_smaller 7 sample seven_nodes

named_fields : any no_text (names (field (codes "a") sum no_fields)) ≡ false
named_fields = refl

is_empty-e_record_example : is_empty (e_record 9 (field (codes "a") sum no_fields)) ≡ true
is_empty-e_record_example = is_empty-e_record 9 (field (codes "a") sum no_fields) named_fields
