-- ===== src/Lib.antt =====
-- sarc packs files into encrypted archives. An archive is a header with a recipient block, a run of
-- entries, an end marker, and a footer with a checksum. An entry holds sealed metadata and framed,
-- padded, sealed data; small files may share one solid entry. An archive written in one pass ends
-- with a directory of its entries and a locator of that directory; an incremental archive grows by
-- sessions, each of which ends with an index of the chunks, files and deleted names it added. A
-- signature may follow the footer, and an archive may be split into volumes. This library models how
-- the archive package encodes, parses and validates these layouts, what the parsers do on bytes that
-- are not an archive, and how the io package puts the parts together: the writer of archives, the
-- sealing of files and solid groups, the extractor's reading and listing, and split archives.
--
-- The files and the code they model:
--   Names             archive/names.go: ValidEntryName; Containment says what resolving a name does
--   Attributes        archive/attributes.go: AppendAttributes, validate, XattrsSize; Decoder is
--                     attrDecoder and ParseAttributes
--   Metadata          archive/metadata.go: marshalMetadata, unmarshalMetadata, BucketizeSize
--   Solid             archive/solid.go: AppendSolidRecord, ParseSolidStream, SolidRecordSize
--   IndexDecoder      archive/incremental.go: indexDecoder and its reads
--   SessionIndex      archive/incremental.go: SessionIndex.Marshal, ParseSessionIndex
--   Checkpoint        archive/incremental.go: Checkpoint.Marshal, ParseCheckpoint
--   Checksum          archive/checksum.go: Write, flushHeader and Sum of ArchiveChecksum; Writer has the
--                     rest
--   Directory         archive/directory.go: AppendDirectoryRecord, ParseDirectory, the locator
--   Recipients        archive/recipients.go: appendStanza, parseRecipientBlock, validateStanza; Unlock
--                     is OpenRecipientBlock, Credentials what a reader's secrets do with a stanza,
--                     Kinds acceptedKinds
--   Chunker           archive/chunker.go: Chunker.Next, cutPoint
--   Crypto, Keys      crypto/encryption.go, hmac.go, subkey.go, keyderiver.go over the ciphers and hashes
--                     of Go's library (`Primitives`); archive/keys.go
--   Format, Writer    archive/format.go; archive/writer.go: ArchiveWriter. Writer.Layout is what the
--                     parts of an archive look like, Progress what a write changes, Archive whole
--                     archives, Resume appending to one
--   Frames            archive/frames.go: FrameBuilder; crypto/padding.go; encryptFile of io/concurrent.go
--                     and sealPayloadEntry of io/solid.go
--   Reader            io/errors.go, and reading in order from a reader that can fail
--   Extractor         io/extractor.go: Header is readHeader, Framing skips parts of entries, Blocks is
--                     streamDataBlocks over io/decrypt_pipeline.go, with the goroutines in Pool and their
--                     runs in Schedules, Steps and Progress; Entries reads heads and trailers,
--                     Listing is scanList with listSolidBody of io/solid.go
--   EndToEnd          what Frames seals, the Extractor lists
--   Planning          io/solid.go: planSolid, buildSolidEntry; codecFor of io/compression.go; Candidates
--                     and Plan are about plans, Listed and Packs about groups
--   Volumes           io/volume.go: VolumeWriter, and VolumeReader as what reading all of it delivers;
--                     Holding is what a writer keeps, Filling its loop, Writing and Joining whole sets
--   Signature         archive/signature.go: AppendSignatureBlock, ParseSignatureTrailer
--   Volume            archive/volume.go: VolumeHeader.Marshal, ParseVolumeHeader
--   Prelude, Bytes    numbers, tests and lists; byte strings, Go's slices, encoding/binary
--   Result, Decode    errors and panics as values; decoders that are passed by pointer
--   Tests             examples of the theorems at concrete values
--
-- How the code is represented. A Go slice is a list of numbers, of which the theorems that need it
-- ask that they are bytes. A value of a Go integer type is a native number with the type's range as
-- a hypothesis; conversions and sums that wrap are written with their modulus, int64 is ℤ with the
-- range of 64 bits, and an int is one of 64 bits. Offsets into a slice become the part of the slice
-- that they leave. A function with an error returns a Result, whose third constructor is a panic of
-- the code: slicing out of range, and indexing past the end, panic. The decoders keep the first
-- fault and go on, as the code does.
--
-- Fuel. Loops over a parsed count recurse on the count. The loops of ParseSolidStream and
-- ParseDirectory, which run while bytes are left, have as much fuel as there are bytes: each turn
-- takes a byte at least or leaves the loop. Running out of it is a panic in the model, so that a
-- theorem that excludes panics shows that the fuel is enough. The calls of Next have fuel as an
-- argument, and a theorem says how much is enough. The loops over data blocks and over entries take a
-- byte at least in each turn, and have one turn for each byte that is left and one more; so have those
-- that seal chunks, which take at least a byte of the plaintext. VolumeWriter.Write has three turns for
-- each byte: one to finish a volume, one to open one, one to write. Joining volumes from a stream has a
-- turn for each volume as an argument. Running out is `panics` in what they return.
--
-- Reading and writing. An archive that is read is the bytes that are left, and a step that reads
-- returns what it read or an error, with the bytes left then. Readers deliver all they hold and end
-- with io.EOF; a sink takes all that is written. Where the code draws random bytes, they are arguments:
-- nonces and salts as such, and for a FrameBuilder the bytes of its source, whose end is an error.
--
-- Goroutines. Blocks.Pool is decryptBlocksParallel as a relation between its states: each step is one of
-- the dispatcher, of a worker or of the consumer, a channel is a list with its capacity, and a run is any
-- sequence of steps. In `stream_data_blocks` the pipeline is what these goroutines come to.
--
-- Hashes. A checksum is given by the text that its hash was fed. The hash's state, its MarshalBinary and
-- UnmarshalBinary are a `StreamHash`; a resumed checksum has some text that leads to the loaded state.
--
-- Not modelled: the ciphers, hashes and zstd, which are parameters where the code relies on them
-- (`Primitives`, `Unwrapping` for opening a recipient block, the decoders and compressors); what
-- AES-GCM and HMAC document is `IsAead` and `IsMac`. Of the io package: extraction to disk, listing by
-- the directory, incremental sessions, worker pools for sealing, walking directories, and the file
-- system with its stale volumes. Nor are storage backends and the command line.
-- The gear table of the chunker is any function from bytes to numbers, and strings.ToLower, of the
-- extensions of names, any function on them. Messages of errors of the archive package are short names,
-- and errors are told apart by the source's sentinel.
pub mod Prelude
pub mod Result
pub mod Bytes
pub mod Names
pub mod Decode
pub mod Attributes
pub mod Volume
pub mod Signature
pub mod Metadata
pub mod Solid
pub mod IndexDecoder
pub mod Directory
pub mod SessionIndex
pub mod Checksum
pub mod Checkpoint
pub mod Recipients
pub mod Chunker
pub mod Tests
pub mod Crypto
pub mod Keys
pub mod Format
pub mod Writer
pub mod Reader
pub mod Extractor
pub mod Frames
pub mod EndToEnd
pub mod Volumes
pub mod Planning
