-- ===== src/Blazor/Boot.antt =====
-- How the worker of fsharp-backend/src/Wasm/static/BlazorWorker.js starts .NET. Emscripten counts the
-- run dependencies; when the functions of `preRun` are done and the count is 0, it runs those of
-- `postRun`, once.
pub mod Ready
use dark.Common.{
  ℕ, zero, suc, ◌+◌, ◌-◌, ◌*◌, ◌/◌, ◌%◌, ◌<◌, ◌≤◌, ◌≡◌, ◌≢◌, ◌↔◌, refl, sym, ap, ◌∙◌, ◌⊎◌, inl, inr,
  Bool, true, false, not, ◌&&◌, ◌||◌, Option, none, some, List, [], ◌∷◌, ◌++◌, map, append_assoc,
  append-nil, Chars, codes, arith, ◌==◌, ltb, ==_iff, if◌then◌else◌, length, length-append, All,
  Bool-cases, Option-cases, leb, any, last?, last?-append, same_text, same_text_iff,
}
use dark.Blazor.AsyncLoad.{
  Outcome, onload, onerror, Settled, resolved, rejected_request, rejected_event, settle, is_pdb_404,
}

pub record Boot : Type 0 where
  pub non_existing : List Chars
  pub dependencies : ℕ
  pub loaded_files : List Chars
  pub errors : List Settled
  pub ready_posted : ℕ
  pub warned : Bool

-- `onReady` and the rest of the function pushed to `postRun`: the page is told, and a warning is
-- given if there were files that are not in the manifest.
unfoldable pub post_run : Boot → Boot
post_run b = record b {
  ready_posted = b.ready_posted + 1;
  warned = (if leb 1 (length b.non_existing) then true else b.warned);
}

-- What Emscripten does when the count may have come to 0.
unfoldable pub when_ready : Boot → Boot
unfolding post_run
when_ready b = if b.dependencies == 0 then post_run b else b

-- The body of `Object.keys(…).forEach` for one url; `keys` are those of the manifest's assemblies,
-- so `hasOwnProperty` is a search among them.
unfoldable pub add_assembly : List Chars → Chars → Boot → Boot
add_assembly keys url b =
    if not (any (λ k. same_text k url) keys)
    then record b { non_existing = b.non_existing ++ url ∷ [] }
    else record b { dependencies = b.dependencies + 1 }

unfoldable pub add_all : List Chars → List Chars → Boot → Boot
unfolding add_assembly
add_all keys [] b = b
add_all keys (url ∷ urls) b = add_all keys urls (add_assembly keys url b)

abbrev pub fresh : Boot
fresh = record {
  non_existing = [];
  dependencies = 0;
  loaded_files = [];
  errors = [];
  ready_posted = 0;
  warned = false;
}

-- The function pushed to `preRun`, and then Emscripten's check.
unfoldable pub pre_run : List Chars → Boot
unfolding add_all when_ready
pre_run assemblies = when_ready (add_all assemblies assemblies fresh)

-- A file whose request has an outcome, and whether its name ends in `.pdb`.
pub record File : Type 0 where
  pub url : Chars
  pub ends_pdb : Bool
  pub outcome : Outcome

-- The two callbacks of `asyncLoad(…).then` in `preRun`, up to `removeRunDependency`.
unfoldable pub note_file : File → Boot → Boot
unfolding settle is_pdb_404
note_file f b = elim (settle f.outcome) [
  | resolved ↦ record b { loaded_files = b.loaded_files ++ f.url ∷ [] }
  | other ↦ if is_pdb_404 f.ends_pdb other then b else record b { errors = b.errors ++ other ∷ [] }
]

-- `removeRunDependency`
unfoldable pub remove_dependency : Boot → Boot
unfolding when_ready
remove_dependency b = when_ready (record b { dependencies = b.dependencies - 1 })

unfoldable pub on_file : File → Boot → Boot
unfolding note_file remove_dependency
on_file f b = remove_dependency (note_file f b)

unfoldable pub run : List File → Boot → Boot
unfolding on_file
run [] b = b
run (f ∷ fs) b = run fs (on_file f b)

-- The files that are loaded, and the errors that are logged, among some that were settled.
abbrev pub good : List File → List Chars
good [] = []
good (f ∷ fs) = elim (settle f.outcome) [ resolved ↦ f.url ∷ good fs | _ ↦ good fs ]

abbrev pub logged : List File → List Settled
logged [] = []
logged (f ∷ fs) =
    let rest = logged fs in
    elim (settle f.outcome) [
      | resolved ↦ rest
      | other ↦ if is_pdb_404 f.ends_pdb other then rest else other ∷ rest
    ]
