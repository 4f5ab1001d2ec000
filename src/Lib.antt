-- ===== src/Lib.antt =====
-- A verification of the core of the schematic authoring SDK.
--
-- The program. An author's factory runs in a session. Its verbs make directives, which the session
-- buffers; a flush sends the buffered ones as one batch to an engine client, and a read flushes before
-- it asks the client. At the end of a run the session flushes and commits, or discards when anything
-- threw. An engine client is either the in-memory engine of the tests or the client that speaks
-- length-prefixed frames with a host. A scaffold turns the files of a package folder into directives,
-- in groups that fit the size budget of a batch.
--
-- Where each part is.
--   Base              lists, strings as UTF-16 units, maps as association lists, Boolean tests
--   PosixPath         what the code uses of node:path's `posix`: dirname, basename, normalize, join
--   Names             src/core/jsx-name-validator.ts and src/core/reject-tail.ts
--   Wire              src/core/wire.ts: directives and batches; Wire/Json: their JSON text;
--                     Wire/Size and Wire/Budget: the size of a batch and the budget of an emit;
--                     Wire/Assertion: src/core/json-value.ts
--   DeepEqual         src/core/deep-equal.ts, and the value that a JSON round trip gives back
--   Errors            src/core/emit-rejection.ts, src/core/authoring-error.ts,
--                     src/transport/exit-codes.ts
--   Engine            src/core/engine-client.ts: the port, a record of operations on a state
--   Directives        src/core/directive-factory.ts and src/pending-directives/render.ts
--   Fake              src/testing/contract-fake.ts; Fake/Spec is the specification of a directive
--                     over the view that a read gives, without tree, seed and deleted set
--   Session           src/core/session.ts over any engine client
--   Run               src/core/context.ts, `defineFactory`: a factory is a script of session calls;
--                     Run/Boundary: its checks of the package folder and of the input
--   Schema            src/core/schema: schema-model.ts and schema-validate.ts, with Parse,
--                     Sufficiency, Discovery, and Scanner with Locate for the file of that name
--   Dialects          src/core/dialect-handle.ts (Handle: the session's context and the loading of a
--                     tree; Steps: the steps of the methods; Calls: the public handle) and
--                     src/core/define-dialect.ts (Compose)
--   Frames            src/transport/framing.ts and src/transport/frame-reader.ts
--   Scaffold          src/scaffold/expander.ts (Expander), src/scaffold/filename-pipeline.ts
--                     (Filenames, Glob), src/scaffold/path-guards.ts (PathGuards),
--                     src/scaffold/classify-transport.ts (Classify), src/scaffold/walk.ts (Walk),
--                     `runScaffold` with `runCopyIn` and `readTemplateFile` of
--                     src/scaffold/index.ts (Mirror)
--   Transport         src/transport/stdio-engine-client.ts and src/transport/wire-protocol.ts,
--                     with src/transport/error-text.ts (ErrorText)
--   Verbs             src/commons/index.ts and src/commons/classify-content.ts
--   Tests             runs on concrete inputs
--
-- How it is modelled. Stateful code passes its state explicitly; an operation returns the next state
-- and what its promise settles to. A thrown value is one of the type `Thrown`. A promise that is
-- awaited at once is sequencing; the flush that a scaffold fires without awaiting runs to its end
-- first, and its result is kept for the drain. The host and the channel are a list of what arrives.
-- The parse of a frame body and of a schema's text, the change to lower case, the UTF-8 decoder,
-- the resolution of a source path, the disk, the parsers and printers of dialects and their ops are
-- parameters. The regular expressions of the globs are matched as the language defines it.
--
-- Bounds and fuel. The drain of a frame buffer is given the length of the buffer, of which each round
-- takes at least four bytes, and the loop of the filename tokens the length of the path, of which each
-- round takes at least one unit, and the pass over the known prefixes of a message the message's
-- length, likewise; the decimal digits of `n` are computed in `suc n` rounds. The scan of a
-- schema's text gets the room that a parameter says the call stack has, of which each call and each
-- turn of a loop takes one; one more than twice the length of the text is enough, and where the room
-- runs out the locator throws and the failure has no position. The walk
-- of a folder gets two more than its bound, which counts every folder that it visits but the root. A
-- length prefix is four bytes written out with their remainders. Request numbers are natural numbers,
-- and the bound of a frame body takes them below 2^53.
--
-- What is not modelled. Texts of messages; the dialects over third-party syntax trees; process
-- start, the greeting, the redirection of standard streams and the shapes of paths in error texts.
-- JavaScript values are finite trees without sharing. The keys of an object are in the order of
-- their insertion, without the exceptions for array indices and `__proto__`. The steps of different
-- dialect handles do not interleave.
pub mod Base
pub mod PosixPath
pub mod Names
pub mod Wire
pub mod DeepEqual
pub mod Errors
pub mod Engine
pub mod Directives
pub mod Fake
pub mod Schema
pub mod Session
pub mod Run
pub mod Frames
pub mod Dialects
pub mod Scaffold
pub mod Transport
pub mod Verbs
pub mod Tests
