-- ===== src/Lib.antt =====
-- The JavaScript of Dark: the code of the page around the client, which is compiled from OCaml, and
-- the functions in JavaScript that its analysis worker is linked with; and, in OCaml, the
-- expressions that client and backend share, and of the backend the routes of HTTP requests, the
-- operations that a canvas is built from, and canvases.
--
-- The parts and how they interact. The client asks for analyses of handlers through
-- `window.Dark.analysis` of client/src/appsupport.js. It passes each request to one of two objects,
-- `ocamlAnalysis` or `fsharpAnalysis`, which post it to a web worker at once, or store it while the
-- worker is busy, or put it off by a timer while the worker is not loaded. The worker's results
-- come back as messages, and are dispatched as events to the client. The F# worker is started by
-- fsharp-backend/src/Wasm/static/BlazorWorker.js, which loads .NET and tells the page when it is
-- done; client/workers/FSharpAnalysisWrapper.ml turns its messages into JSON. The OCaml worker uses
-- backend/libtarget.js/libtarget.js for base 64 and digests, behind the guard in libtarget.ml.
-- Traces come through `window.Dark.fetcher` in the same way. The rest of appsupport.js are helpers
-- of the client: the check of the browser, keys, focus, places of AST elements, the recording of
-- sessions, and the start of the page. Apart from these, backend/libbackend/webserver.ml answers
-- the requests to a user's site: the database selects handlers by a pattern, and
-- backend/libexecution/http.ml decides which of them a request is for. A canvas is a list of
-- operations, backend/libserialize/op.ml, which backend/libbackend/undo.ml frees of undos and redos
-- before backend/libbackend/canvas.ml applies it. The code in such an operation is an expression of
-- libshared/FluidExpression.ml, which the editor searches, updates, renames in and clones.
--
-- Which file models which part:
--   Common       shared names and lemmas: Boolean tests, lists, text, permutations, searches
--   Base64       backend/libtarget.js/libtarget.js and the guard in libtarget.ml. Alphabet: the
--                table `lookup`; Words: `<<`, `>>`, `&`, `|`; Encode, Decode: the two functions,
--                with Groups for a round of their loops and Matches for the whole; Rfc: what RFC
--                4648 says; Guard: `bytes_from_base64url`; Unsafe: characters outside the alphabet;
--                Canonical: the texts that the encoder writes; Digest: the digests
--   Analysis     client/src/appsupport.js. Slot: what the queue promises; Fsharp, Ocaml: the two
--                objects, with the page's effects (messages posted, events dispatched, timers) as
--                fields of their records, `requestAnalysis` as `request_analysis`, `callback` as
--                `callback`, the worker's `onmessage` as `on_message`, a timer as `retry`; Queue:
--                the F# one against Slot; System: page and worker as a step relation; Latest:
--                which request is run last; Drain: how the queue comes to rest; Garbled: results
--                that cannot be decoded; Early: requests that come before the worker is loaded;
--                Flood: what becomes of requests to the OCaml one; Fetcher: `fetcher`; Dispatch:
--                `analysis`; Wrapper: client/workers/FSharpAnalysisWrapper.ml
--   Blazor       fsharp-backend/src/Wasm/static/BlazorWorker.js. AsyncLoad: `asyncLoad`; Boot:
--                the functions of `preRun` and `postRun`, with Emscripten's count of run
--                dependencies; Scripts: `locateFile` and the choice of the script of .NET; Page:
--                the worker's start with the F# queue of the page
--   Browser      client/src/appsupport.js and client/src/unsupportedBrowser.js. Support, Page, Overlay:
--                the check of the browser and its overlay; Keys: `stopKeys`,
--                `getBrowserPlatform`; Focus: `windowFocusChange`, `visibilityCheck`; Wheel:
--                `addWheelListener`; Errors: the handlers of uncaught errors
--   Ast          `ast.positions` of client/src/appsupport.js. ExtractId: its regular expression
--   Startup      client/src/appsupport.js. Canvas: the start of the client; Workers: the web
--                workers; Consent: `fullstory`; Push: pusher's channel; Poll: `awaitAnalysis` of
--                integration-tests/tests.js
--   Http         backend/libexecution/http.ml. Paths: `split_uri_path` and variables; Bind:
--                `bind_route_variables`, with Matches for what it means that a path matches a
--                route; Specificity: `compare_route_specificity`; Handlers: handler.ml beside it;
--                Filter: `filter_matching_handlers`; Pattern: `route_to_postgres_pattern`;
--                Request: `from_request` of backend/libexecution/parsed_request.ml;
--                Sanitize and Serve: `sanitize_uri_path` and `user_page_handler` of
--                backend/libbackend/webserver.ml, with Raises for its exceptions
--   Ops          Op: `op` of backend/libexecution/types.ml and `tlidOf` of
--                backend/libserialize/op.ml; Ast: `ast_of`, `with_ast`; Group:
--                `oplist2tlid_oplists`; Undo: `preprocess` of backend/libbackend/undo.ml, with
--                Pairs for its first step, Savepoint for its second, and Reduced for what is
--                left; Order: `filter_ops_received_out_of_order` and
--                `required_context_to_validate`
--   Fluid        libshared/FluidExpression.ml and FluidPattern.ml. Pattern, Expr: the data types,
--                `children` and `deprecatedWalk`; Schemes, Induct: recursion and induction on
--                expressions; Walk: what `deprecatedWalk` does; Find: `find`; Update: `update`,
--                with Laws, and Replace for `replace`, where Merged says what is put in; Parent:
--                `findParent` and `ancestors`, with Edges (all pairs of an expression and a child),
--                Within and Ancestors; Empty: `isEmpty`; Collect: `filterMap`, `ids`, `decendants`;
--                Variables: `updateVariableUses`, with Uses for the names that an expression uses
--                and does not bind, Unused, Removed and Kept for what becomes of them, and Rename;
--                Substituted says what renaming is by an environment of names, with Identity for
--                the one that changes nothing, and Renaming; Clone: `clone`, with Plain for
--                expressions without ids; Traverse: `preTraversal`, with Ends for its termination
--   Canvas       backend/libbackend/canvas.ml. Db: the databases of
--                backend/libbackend/user_db.ml; State: the canvas and the functions on it; Apply:
--                `apply_op` and `add_ops`, with Cells for what lies under one id, Acts for what
--                an operation does, Frame for the other ids, Invariant and Sound, Refused for
--                exceptions, Add for `add_ops`; Deleted: deletions
-- The files named Tests hold runs and the theorems at concrete inputs.
--
-- Text is the list of its character codes, and a number of the source that is never negative is a
-- natural number. A value that may be `undefined` or `null` is an Option; an exception is `none` or
-- a constructor of a result. Bytes that are written to a Uint8Array keep their low 8 bits. The
-- loops recurse on what is left of their input; only two have fuel: `poll`, 12, which it never uses
-- up, as it ends at its trial 11, and `pre_traversal`, which need not end: its fuel is an argument.
-- `gid` is a function that draws an id from a state. Events (requests, timers, messages) come as
-- lists in any order, or as steps.
--
-- Parameters: the encoder and decoder of JSON, the SHA-2 hashes, the responses of the server, the
-- conversion of coordinates to text, the arithmetic of wheel events, and the FullStory library with
-- its documented behaviour. For the routes: `List.sort` and the `LIKE` of the database with their
-- documented behaviour, `Dval.dstr_of_string_exn` without its exception, `String.Caseless.equal`,
-- and the value that stands for the exception of `event_name_for_exn`; for their requests, the
-- operations on values in backend/libexecution/dval.ml and the parts of a request's value that do
-- not come from its body. For operations: `List.stable_dedup`, and the types of what they carry.
-- For expressions: `gid`, and `List.splitWhen` with its documented behaviour; for canvases:
-- `Ast.set_expr` and `Dval.tipe_of_string`.
--
-- Not modelled: the set-up of Rollbar and pusher, analytics, and the capture of the view, which
-- call libraries; the client's editor, the rest of both backends and the services, which are not in
-- JavaScript; `verify` of canvases, and their loading and saving; of FluidExpression.ml
-- `findExprOrPat`, and `testEqualIgnoringIds` and `toHumanReadable`, which tests and debugging use;
-- the storing of events and the execution of a page in `user_page_handler`; the names of
-- operations; console output, except the errors of the worker's start.
pub mod Common
pub mod Base64
pub mod Analysis
pub mod Browser
pub mod Ast
pub mod Blazor
pub mod Startup
pub mod Http
pub mod Ops
pub mod Fluid
pub mod Canvas
