-- ===== src/Blazor/Tests.antt =====
-- The start of the worker with two files, one of which is missing.
use dark.Common.{
  ℕ, none, some, is_prefix, same_text, refl, ◌≡◌, true, false, List, [], ◌∷◌, Chars, codes, arith,
  ◌==◌, if◌then◌else◌, length,
}
use dark.Blazor.AsyncLoad.{onload, settle}
use dark.Blazor.Boot
use dark.Blazor.Boot.{File, pre_run, good, logged}
use dark.Blazor.Scripts.{
  imported, start_dotnet, after_manifest, import_scripts, is_dotnet_script, is_suffix,
}
use dark.Blazor.Page.{HasServed, early_events, early_requests}
use dark.Analysis.Wrapper.{Json}
use dark.Analysis.Fsharp.{created}
use dark.Analysis.Fsharp.Latest.{run}
use dark.Blazor.Boot.Ready.{boot_lem}

abbrev urls : List Chars
urls = codes "a.dll" ∷ codes "b.pdb" ∷ []

abbrev files : List File
files =
    record { url = codes "b.pdb"; ends_pdb = true; outcome = onload 404 true }
    ∷ record { url = codes "a.dll"; ends_pdb = false; outcome = onload 200 true }
    ∷ []

boot_example :
    let b = Boot.run files (pre_run urls) in
    (b.ready_posted ≡ (if length files == length urls then 1 else 0))
    × (b.loaded_files ≡ good files)
    × (b.errors ≡ logged files)
    × (b.non_existing ≡ [])
    × (b.warned ≡ false)
boot_example = boot_lem urls files (omega arith)

abbrev resources : List Chars
resources = codes "dotnet.wasm" ∷ codes "dotnet.6.0.js" ∷ []

first_script :
    start_dotnet (codes "https://test") (onload 200 true) resources
    ≡ imported (codes "https://test/blazor/dotnet.6.0.js")
unfolding start_dotnet after_manifest import_scripts is_dotnet_script is_suffix is_prefix same_text
    settle
first_script = refl

abbrev codec : Json ℕ ℕ
codec = record { stringify = λ n. n ∷ []; parse = λ s. none }

early_requests_example : HasServed codec (some 1) (some 3) (length files == length urls) (
    run codec
      (early_events 5 (Boot.run files (pre_run urls)) (some 1) (some 2 ∷ []) (some 3))
      created)
early_requests_example =
    early_requests codec urls files 5 (some 1) (some 3) (some 2 ∷ []) (omega arith)
