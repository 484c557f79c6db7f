-- ===== src/Lib.antt =====
-- A model of pyhdiff: binary deltas in an integrity-checked envelope, and bounded zstd frames.
--
-- The program has three layers. src/pyhdiff/__init__.py is the public module: it seals payloads in
-- a 96-byte envelope, checks envelopes, and turns statuses into exceptions. The extension module
-- src/pyhdiff/_native.c hands the arguments to src/native/bridge.cpp, whose entry points validate
-- options and sizes and run HDiffPatch and zstd over memory streams and a growable buffer.
-- src/pyhdiff/raw.py exposes payloads without an envelope, and scripts/golden.py encodes the
-- corpus by which each release checks the earlier ones, and scripts/toolchain.py builds the
-- compiler and runtimes that the extension is built with; scripts/wheel.py tags the wheel; scripts/native_checks.py
-- runs the native tests.
--
-- Files:
--   Base            numbers, lists, bytes and integers that the modules share
--   Struct          the `struct` format of the header, `_HEADER` of __init__.py
--   Errors          the exception classes of __init__.py, and calls that return or raise
--   Status          the limits and status codes of src/native/bridge.h
--   Native          the functions of the extension module, as __init__.py sees them
--   Api             __init__.py: Values (arguments, profiles), Codes (`_call`, `_raise`, argument
--                   lists), Envelope (`_envelope`, `inspect`), Calls (`encode_delta`, `encode_base`,
--                   `apply`, `compress`, `decompress`); the other children hold the proofs
--   Raw             src/pyhdiff/raw.py
--   Bridge          bridge.cpp: Throw (exceptions, `boundary`), Options, Growable, Streams (`Input`,
--                   `Output`), Zstd (the decoder), Apply (`zstd_apply`), Frame (`frame_decompress`),
--                   Hdiff (`hdiff_encode`, `hdiff_apply`), Tuning and Encode (`zstd_encode`), Compress
--                   and Decompress (the plugins that HDiffPatch writes and reads compressed parts of a
--                   diff with), Pair (encoders and decoders together), Entry (`apply_into` and the
--                   `phd_` functions); Sample and Copying are codecs to run the model with
--   Extension       src/pyhdiff/_native.c: the functions of the extension module over the `phd_`
--                   functions, which together fill the interface of Native; Frames has the public
--                   `compress` and `decompress` over all of it, Codecs the codecs of the bridge as
--                   the interface shows them, and Stored libraries to run it with, which are
--                   codec and frame pairs
--   Scripts         scripts/golden.py: Golden (`encode_corpus`, `check_complete`), Generate
--                   (`generate`), Release (`import_release`). scripts/toolchain.py: Files (the file
--                   system as pathlib and shutil see it), Build (its statements as steps on a
--                   world), Toolchain (`fetch`, `install_compiler`; children Runtime,
--                   `build_runtime`, and Main, `main`). scripts/wheel.py: Wheel (`retag`), with Publish
--                   (`policy`, `main`). Pack: `pack` of golden.py. Checks: scripts/native_checks.py. Text:
--                   methods of `str`
-- Tests modules run the definitions and apply the theorems to concrete values.
--
-- A Python call is a `Result`, which is a value or an exception; a C++ call is a `Cpp`, which is a
-- value, a thrown exception, or `diverges`. Statements in sequence are do blocks. A C `int` is an
-- integer, a size a natural number; where the code subtracts, the model does so where the code has
-- checked the order, and unsigned wrap-around is written out.
--
-- Parameters, as code of other projects: SHA-256 (`Hash`: a digest has 32 bytes), the extension
-- module as Python sees it (`Native`), realloc (for which sizes it succeeds), zstd (`Decoder`,
-- `Encoder`: a call stays within its two buffers), HDiffPatch (`DiffLibrary`: the writes of a run,
-- the header of a diff, the result of a patch; `Source` and `Sink`, the streams of its plugins),
-- for the extension module the allocation of
-- `bytes` (`Libraries`), and for the scripts the network, the commands they run, JSON and archives
-- (`Machine`, `Library`, `Processes`, `Archivers`,
-- `Host`), with UTF-8 and base64 (`TextLibrary`). Assumptions on them beyond that are hypotheses of
-- the theorems that need them.
--
-- Fuel: `zstd_apply` runs on the payload's size, the target's size and one, `frame_decompress` on
-- the input's size, the bound and one; every round but the last reads or writes a byte, so neither
-- runs out. `decompress_part` of the plugin runs on what is left to read, the size of the part and
-- one, `close` on what is left to read and two, for the same reason. The outer loop of `zstd_encode`
-- has a round more than the target has bytes; its inner loop has the chunk size, what the limit
-- leaves and one, which is enough if the compressor makes progress (`MakesProgress`); `compress` of the
-- plugin has the same for the size of its stream.
-- `window_loop` has the twenty rounds from 10 to 30, `log_loop` the 64 bits of a size. `settled` of
-- Extension takes the result of an entry point of the bridge.
--
-- Not modelled: the constants of `plugin_template` in bridge.cpp, the null-pointer checks of its
-- entry points, the creation of the module object in _native.c, the release of the interpreter lock,
-- and the code under PHD_TEST (fault injection). The argument parsers of the scripts have no
-- counterpart. What the interpreter does with a path that names a link is not modelled.
pub mod Base
pub mod Struct
pub mod Errors
pub mod Status
pub mod Native
pub mod Api
pub mod Raw
pub mod Bridge
pub mod Extension
pub mod Scripts
