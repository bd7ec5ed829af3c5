-- ===== src/Analysis/Dispatch.antt =====
-- `analysis` of client/src/appsupport.js, which chooses between the two analyses, and
-- `initializeBlazorWorker`, which loads the F# worker if it was chosen.
use dark.Common.{
  ℕ, ◌≡◌, Bool, true, false, Option, none, some, List, [], ◌∷◌, Chars, arith, map, if◌then◌else◌,
}
use dark.Analysis.Wrapper.{Json}
use dark.Analysis.Fsharp
use dark.Analysis.Fsharp.{Fsharp}
use dark.Analysis.Fsharp.Latest
use dark.Analysis.Ocaml
use dark.Analysis.Ocaml.{Ocaml}

-- `useBlazor` is what `urlParams.get("use-blazor")` gave: `null`, or a text, which passes an `if`
-- unless it is empty.
unfoldable pub chosen : Option Chars → Bool
chosen none = false
chosen (some []) = false
chosen (some (c ∷ s)) = true

pub record Dark (P R S : Type 0) : Type 0 where
  pub use_blazor : Option Chars
  pub fsharp : Fsharp P R
  pub ocaml : Ocaml (Option P) S

module _ {P R S : Type 0} (codec : Json P R) where
  -- `analysis.requestAnalysis`
  unfoldable pub request_analysis : Option P → Dark P R S → Dark P R S
  unfolding chosen
  request_analysis params d =
      if chosen d.use_blazor
      then record d { fsharp = Fsharp.request_analysis codec params d.fsharp }
      else record d { ocaml = Ocaml.request_analysis params d.ocaml }

  -- A message of the F# worker arrives only if `initWorker` was called.
  unfoldable pub blazor_message : ℕ → Chars → Dark P R S → Dark P R S
  unfolding chosen
  blazor_message now output d =
      if chosen d.use_blazor
      then record d { fsharp = Fsharp.on_message codec now output d.fsharp }
      else d

  unfoldable pub request_all : List (Option P) → Dark P R S → Dark P R S
  unfolding request_analysis
  request_all [] d = d
  request_all (p ∷ ps) d = request_all ps (request_analysis p d)

  -- All requests go to one of the analyses, in their order: to the F# one if the parameter is there
  -- and not empty, whatever it says, also "false", else to the OCaml one. The other one is left as it
  -- was.
  pub one_analysis :
      (ps : List (Option P)) (d : Dark P R S)
      → let d' = request_all ps d in
        (d'.fsharp ≡ (
          if chosen d.use_blazor
          then Latest.run codec (map Latest.request ps) d.fsharp
          else d.fsharp))
        × (d'.ocaml
            ≡ (if chosen d.use_blazor then d.ocaml else Ocaml.run (map Ocaml.request ps) d.ocaml))
        × (d'.use_blazor ≡ d.use_blazor)
  unfolding request_all Latest.run Ocaml.run
  one_analysis [] d = ground arith
  one_analysis (p ∷ ps) d = ground (arith, one_analysis ps (request_analysis p d))
