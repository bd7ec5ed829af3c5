-- ===== src/Startup/Tests.antt =====
-- The theorems about the start of the page at concrete inputs.
use dark.Common.{none, Bool, not, ◌*◌, refl, true, false, some, [], Chars, codes}
use dark.Startup.Canvas.{Globals, Params}
use dark.Startup.Consent.{
  User, Effect, init_sdk, restart, shutdown, FullStory, IsDocumented, consents,
}
use dark.Startup.Poll.{Ends, await_analysis, await_analysis_lem}

abbrev newcomer : User
newcomer = record { is_admin = false; account_age_ms = 5000; stored = some (consents true) }

-- A library that keeps the two flags.
record Flags : Type 0 where
  dev : Bool
  on : Bool

abbrev flags_after : Effect → Flags → Flags
flags_after (init_sdk dev) s = record { dev = dev; on = not dev }
flags_after restart s = record s { on = not s.dev }
flags_after shutdown s = record s { on = false }
flags_after _ s = s

abbrev flags : FullStory Flags
flags = record { call = flags_after; is_dev = λ s. s.dev; is_recording = λ s. s.on }

flags-IsDocumented : IsDocumented flags
flags-IsDocumented = record {
  init_dev = λ dev s. refl;
  init_starts = λ dev s. refl;
  identify_dev = λ s. refl;
  identify_keeps = λ s. refl;
  consent_dev = λ given s. refl;
  consent_keeps = λ given s. refl;
  restart_resumes = λ s. refl;
  shutdown_ends = λ s. refl;
}

abbrev off : Flags
off = record { dev = false; on = false }

await_analysis_example : Ends (λ k. k * 4) 9 0 (await_analysis (λ k. k * 4) 9)
await_analysis_example = await_analysis_lem (λ k. k * 4) 9

abbrev globals : Globals
globals = record {
  complete = [];
  user_content_host = codes "example.com";
  environment = codes "test";
  csrf_token = [];
  is_admin = false;
  build_hash = codes "1";
  username = codes "test";
}

-- It keeps the name of the canvas only.
abbrev name_of : Params → Chars
name_of p = elim (p.canvas_name) [ none ↦ [] | some name ↦ name ]
