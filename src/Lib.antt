-- ===== src/Lib.antt =====
-- Verification of parts of GopherJS, the compiler from Go to JavaScript.
--
-- Base holds what the parts share: Boolean tests and equality on native numbers and texts,
-- lists, results, byte slices, Go maps as association lists (Base/Assoc), and the law of package
-- sort (Base/Lists, with a concrete sort in Base/Sorting).
--
-- Dce models compiler/internal/dce. Dce/Info is info.go, Dce/Selector is selector.go (Include,
-- AliveDecls) and Dce/Collector is collector.go. A pointer to a declInfo is the number of a
-- cell, because two buckets of byFilter share it. The loop of AliveDecls runs on fuel: the
-- number of pending declarations and of entries in the buckets, which a round makes smaller by
-- at least the declaration that it pops. Dce/Live describes what has to stay without a worklist;
-- Dce/Invariant, Including, Selecting and Rounds lead to the proofs in Dce/Correct and
-- Dce/Order. The names of filters, which filters.go derives from types, are texts that SetName
-- and DeclareDCEDep are given.
--
-- Sourcemap models internal/sourcemapx. Sourcemap/Hint is hint.go and identifier.go,
-- Sourcemap/Filter is Filter.Write, and Sourcemap/Mapping is normalizePath, the default
-- callbacks and WriteJS of filter.go. The loop of Filter.Write runs on fuel, one more than the
-- number of bytes, since a round consumes a hint of three bytes at least; the newline loop
-- likewise. Writers, encoding/gob, path/filepath, the position table and esbuild are parameters.
-- Sourcemap/Stream describes the stream of code and hints that Filter.Write is proved against.
-- The callbacks of a filter do not panic in this model, and EnableMapping, which only sets
-- fields, and WriteMappingTo are left out.
--
-- Nosync models the package nosync, a file for each type. A method returns the object and the
-- panic that it raised, so that what was written before a panic is kept. An int32 and an int are
-- bit patterns with their wrap-around. Range visits entries in the order of the association
-- list, and its callback does not change the map. A key of a Map is a value in an interface:
-- Nosync/Keys says which can be hashed and which are equal, a NaN not being equal to itself, and
-- an operation on the built-in map panics on a key that cannot be hashed; Nosync/Answering
-- compares Map with a function.
--
-- Linkname models compiler/linkname/linkname.go and compiler/internal/symbol/symbol.go.
-- Linkname/Directive is readLinknameFromComment, Linkname/Parse is ParseGoLinknames,
-- lookupTopNode and ImportsUnsafe of compiler/astutil, Linkname/Mitigated holds the tables of
-- known directives, Linkname/Set is GoLinknameSet, and Linkname/Symbol is New and IsMethod. Of a
-- file the model keeps its imports, top-level declarations and comments; strings.Fields splits
-- at ASCII spaces only.
--
-- TypeParams models compiler/internal/typeparams/map.go and the InstanceSet of instance.go.
-- TypeParams/Instance holds instances, TypeList.Equal of compiler/typesutil and typeHash with
-- its exclusive or on 32 bits; TypeParams/InstanceMap is the map, whose buckets keep the holes
-- of deleted entries, and TypeParams/InstanceSet is the set. types.Identical and typeutil.Hasher
-- are the record Types: an equivalence, and a hash that does not tell identical types apart.
-- TypeParams/Bucket, Placing, Deleting and Apart are the laws of one bucket, MapLaws, Answers
-- and Promised those of the map, Numbering, Ids and Draining those of the set. Iterate and the
-- texts of instances are left out.
--
-- Analysis models the later phases of compiler/internal/analysis. Analysis/Info is Info,
-- FuncInfo and IsBlocking of info.go and the statements of defer.go and return.go,
-- Analysis/Propagate is the first loop of PropagateAnalysis and propagateFunctionBlocking, and
-- Analysis/Control is the second loop with propagateReturnBlocking and
-- propagateContinueBlocking. A pointer to a FuncInfo is the number of a cell; nodes, instances,
-- literals and labels are numbers, since they are compared only. The package info that an
-- importer returns is taken to be the one that is in allInfo. The maps of callees are
-- association lists; Iterate goes over the entries that were there at its start, as its body
-- deletes only the current one. The first loop runs on fuel: each round but the last deletes a
-- callee, so one more than the number of callees is enough. Analysis/MayBlock says without a
-- loop which functions may block; Entries, Visiting, Absorbing, Invariant, Shrinking, Visits and
-- Exact lead to Analysis/Propagated, and Growing, Marking and Statements to Analysis/Finished.
-- Looping says what the first loop leaves alone, Quiet what the second one does, and
-- Analysis/Whole puts them together. Analysis/BoolValue is bool.go with the operators that it
-- looks at, and Analysis/Search is break.go and sideeffect.go over trees whose nodes have their
-- type and the fields that Visit reads, with info.TypeOf as a parameter; Analysis/Reaching says
-- without a walk what they look for, and Walking and Searching compare the two. The walk that
-- collects the information (FuncInfo.Visit) and escape.go are left out.
--
-- Natives models parts of Go's standard library that compiler/natives/src replaces. Natives/Bits
-- is math/bits/bits.go on words of 32 bits, whose bit operations stand in Base/Words; each of
-- the two loops of Div32 runs on fuel for three rounds, since rhat grows by half its bound in
-- each. Words holds the laws of Mul32 and Add32; Division, Shifting and Divide lead to those of
-- Div32 and Rem32. Natives/Slices is bytes/bytes.go and internal/bytealg/bytealg.go.
-- Natives/Strings is Count and Repeat of strings/strings.go with their loops on fuel, one more
-- than the bytes of the text or of the result, since a round consumes or adds one at least;
-- Counting and Repeating are their laws, and Finding a search that does what Count asks of
-- indexOf. Natives/Semaphore and Waking are the semaphores of sync/sync.go:
-- runtime_SemacquireMutex is two steps, up to the receive and from there on, and a run is any
-- sequence of the steps. Natives/Atomic is sync/atomic/atomic.go, with the dynamic type and a
-- number for what an interface holds, and with $interfaceIsEqual of compiler/prelude/prelude.js,
-- of which the types that are comparable and $equal are a parameter; ValueTypes is the law of
-- Value. Natives/MapHash is hash/maphash/maphash.go and Chunks the law of Write; the loop of
-- Write has two rounds of fuel more than there are bytes, as only a full buffer makes a round
-- without a byte, and only the first.
--
-- Build models the part of build/build.go that merges the native overlays into the files of a
-- package of the standard library: parseAndAugment behind the parsing. Build/Syntax is what that
-- code reads and changes of go/ast: a slice whose entries are set to nil holds options, an
-- import specification is a cell, since File.Imports and the declarations share it, and of
-- expressions and bodies the selectors and comment groups are kept that ast.Inspect meets.
-- Build/Directives holds the directives, FuncKey and FuncReceiverKey of
-- compiler/astutil/astutil.go, Build/Squeeze its Squeeze, Build/Finalize finalizeRemovals,
-- Build/Imports pruneImports, isOnlyImports, augmentOriginalImports and ImportName,
-- Build/Overlay augmentOverlayFile, and Build/Original augmentOriginalFile and the loops of
-- parseAndAugment. A panic is none. Gathering, Declared, Pruned and Hollow follow what a file
-- declares through the removals; Values, Emptied, Fates and Augmenting through
-- augmentOriginalFile; Overriding, Signing, Overlaid and OverlaidFiles are about the overlays,
-- Apart and Merged are about a key of both sides, and Kept and Keeping about one of the
-- originals alone. Unused, Blanking, Imported and Pruning are the laws of pruneImports, Matching
-- those of the directives, Keys those of FuncKey, and Parsed and Total say which files are
-- merged without a panic.
--
-- Not modelled: the translation to JavaScript text (compiler/expressions.go, statements.go and
-- the like), the names of dead-code filters, and the walks of the type parameter collector, all
-- over go/ast and go/types; build sessions, contexts, the parsing of files and the cache, which
-- work on file systems; the command line tool; the bindings to the JavaScript runtime in js and
-- in the runtime and reflect natives; and the copies of other projects in compiler/vendor and
-- internal/govendor.
pub mod Base
pub mod Dce
pub mod Sourcemap
pub mod Nosync
pub mod TypeParams
pub mod Linkname
pub mod Natives
pub mod Analysis
pub mod Build
