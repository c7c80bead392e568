-- ===== src/Lib.antt =====
-- DEQR moves a file from a desktop to a phone as a stream of QR codes. The desktop cuts the file
-- into segments, each segment into symbols, and shows data frames that carry source symbols or
-- XOR repair symbols; manifest frames say what is sent. The phone parses each frame, recovers the
-- segments, and checks the hash of the whole.
--
-- Files, and the code that they model (paths from the root of the repository):
--   Common            tests, lists, bits, runs of events, and pieces of a range
--   Transfer          src/shared/transfer-ui-state.ts: the phases shown to a user
--   Sender            src/renderer/sender-state.ts: TRANSITIONS and reduceSender as `transitions` and
--                     `reduce_sender`, the renderer's predicates; `run` applies a list of events
--   Receiver          mobile-web/src/receiver-state.ts: the same for reduceReceiver
--   Protocol/Types    src/core/protocol-v2.ts: constants, manifests, data frames, errors
--   Protocol/Crc      src/core/crc32.ts
--   Protocol/Buffer   Uint8Array and DataView as protocol-v2.ts uses them
--   Protocol/Plan     planSegmentation and the ranges of segments and symbols
--   Protocol/Window   planCompressionWindows, compressionInconsistency, windowOriginalRange
--   Protocol/Utf8     decodeUtf8, on the platform's TextEncoder and fatal TextDecoder, which are
--                     written after the WHATWG Encoding Standard
--   Protocol/Manifest serializeManifestFrame, parseManifestFrame
--   Protocol/Frame    detectProtocolVersion, parseFrame, validateDataFrameAgainstManifest
--   Protocol/Data     serializeDataFrame, readPrefix, checkCrc, parseDataFrame
--   Fec/Encoder       src/core/segment-encoder.ts: SegmentEncoder, with its segment as an Option
--   Fec/Decoder       src/core/segment-decoder.ts: the state of SegmentDecoder and its ripple;
--                     Fec/Decoder/Accept is accept, segment, detach, release and
--                     heldBytes
--   Fec/Delivery      both ends together: symbols that arrive in some order, as a list
--   Fec/Recovery      a segment whose source symbols have all arrived
--   Fec/Detach        a segment that is detached while symbols go on arriving
--   Session/Setup     src/core/segmented-receiver.ts: SegmentedReceiver as the record of its fields,
--                     the constructor with adopt, and firstMissingSegment
--   Session/Routing   acceptFrameBytes, acceptFrame, activate, evictLeastRecent, commit, release. The
--                     segments that the callback of commit is given are kept in `completed`
--   Session/Delivery  a whole transfer: frames of one encoder per segment, in any order
--   Resume/Base32     src/core/resume-token.ts: toBase32, and what the readers make of a typed text
--   Resume/Token      encodeResumeToken, decodeResumeToken, resumeTokenMatchesDigest
--   Resume/Ranges     missingRangesFromBitmap, the varints, packRanges and unpackRanges
--   Resume/Targeted   encodeTargetedResumeToken, decodeTargetedResumeToken, resumeTokenTargets
--   Resume/Handover   resumeToken of mobile-web/src/receive-pipeline.ts, and applyResume of
--                     src/main/streaming-sender.ts
--   Dedupe            mobile-web/src/frame-dedupe.ts: frameFingerprint, BoundedFingerprintSet
--   Filename          src/core/filename-sanitizer.ts: sanitizeFilename
--
-- Numbers are naturals. A `number` or a `bigint` of the source that is tested to be an integer and
-- not negative is one, so those tests fall away; the upper bounds are tested as in the source. A
-- Uint8Array is a list of numbers, and `IsBytes` says that they are below 256. A string is the list of
-- its UTF-16 units. A function of the source that returns a V2Result or throws returns `ok`, `fail`,
-- `rejects` or `throws`: `fail` is a failure that is returned, `rejects` a DeqrV2Error that `reject`
-- throws, and `throws` any other exception, such as a RangeError of a DataView. `require` is a test
-- that rejects, `guard` one that fails, and `caught` the try and catch of parseManifestFrame.
-- Messages of errors are left out.
--
-- The CRC table is built by recursion on the 256 entries and the 8 bits, and every loop over bytes is
-- a recursion on the list. The ripple of the decoder is on fuel: it has as much as there are source
-- symbols, and one more, which is enough since a symbol goes on the queue when it is solved.
--
-- The rule that picks the source symbols of a repair symbol, RepairNeighborFn, is an argument of the
-- functions of the encoder and the decoder. A Map and a Set of the decoder are lists, with the keys
-- of the former. `segment` and the constructors are `none` where the source throws; a decoder for
-- 2^31 - 7 symbols or more is not made, see Fec/Decoder/Accept.
--
-- A number that a token holds is written in seven-bit groups with fuel for eight of them, which is
-- enough for 2^56, above every integer that a `number` holds exactly. The gaps in a token are read
-- with as much fuel as the blob has bytes, since a gap takes a byte at least; a byte is written in
-- base 32 with fuel for each bit that is held, and a text is cut into no more groups than it has
-- characters. String.toUpperCase of a text that is not all ASCII is an argument of the readers of a
-- token.
--
-- Not modelled: the storage and the workers, the camera, QR rendering and decoding, the views, and
-- the Electron processes, which are input and output, but for what they do with a token; the choice
-- of the source symbols of a repair symbol (repairNeighbors), which samples a distribution of floating
-- point numbers; compression, the profiles, the container of chunks, and version 1 of the protocol.
pub mod Common
pub mod Transfer
pub mod Sender
pub mod Receiver
pub mod Protocol
pub mod Fec
pub mod Dedupe
pub mod Filename
pub mod Resume
pub mod Session
