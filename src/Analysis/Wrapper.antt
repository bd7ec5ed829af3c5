-- ===== src/Analysis/Wrapper.antt =====
-- client/workers/FSharpAnalysisWrapper.ml, which appsupport.js uses to talk to the F# worker.
use dark.Common.{Option, none, some, Chars, codes}

-- What the wrapper calls: the encoder of parameters with `JSON.stringify`, and `JSON.parse` with the
-- decoder of results, which raises (`none`) on a text that it does not understand.
pub record Json (P R : Type 0) : Type 0 where
  pub stringify : P → Chars
  pub parse : Chars → Option R

pub data ResponseType : Type 0 where
  error success : ResponseType

pub record Response : Type 0 where
  pub response_type : ResponseType
  pub json : Chars

module _ {P R : Type 0} (codec : Json P R) where
  -- `stringifyInput`: an event without data is `none`.
  abbrev pub stringify_input : Option P → Response
  stringify_input none = record {
    response_type = error;
    json = codes "Error: got null instead of an event";
  }
  stringify_input (some params) = record { response_type = success; json = codec.stringify params }

  -- `decodeOutput`
  abbrev pub decode_output : Chars → Option R
  decode_output str = codec.parse str
