-- ===== src/Lib.antt =====
-- Rampardos is a server of map tiles and static maps. This library models the parts of it that keep
-- state of their own, from rampardos/internal, and proves that they do what the rest relies on.
--
-- The parts and their files:
--   Prelude, with Prelude.Tests, Lists, Int, Maps, Slices, Options: shared names, tests on numbers,
--     lists measured by native numbers, signed sizes, Go's map as a partial function, slices of
--     pointers, and chains of optional results.
--   Lru, with Items, Agree, View, Evict, Promote: the pair of a map and a container/list that the three
--     image caches share. An element pointer is a number that is never given out twice; the list is
--     the list of the live elements, the most recently used one first, and Agree says that map and
--     list hold the same. Evict has the eviction loop and what it leaves.
--   TileCache: services/tile_image_cache.go. Get, Add and SetSize are get, add and set_size.
--   MarkerCache: services/cache_index.go. GetMarkerImage, AddMarkerImage and
--     SetMarkerImageCacheSize keep their names.
--   CompositeCache: services/composite_image_cache.go, with Account for the byte counters, Trim for
--     the eviction loop, Refine and Additions for the operations, and Content for what users rely
--     on. Get, Recheck, Add, SetSize and SetMaxBytes keep their names.
--   Frame: services/renderer/protocol.go, WriteFrame and ReadFrame on lists of bytes.
--   Worker: services/renderer/worker.go, spawnWorker, dispatch and kill; Worker.Prefix has the writer
--     that puts a prefix before each line.
--   NodePool: services/renderer/nodepool.go, with Keys for the keys of pools and Table for the table
--     of pools, its reload and its close.
--   Pool: services/renderer/pool.go as steps of its goroutines, with Conserve and Drain for what
--     every schedule keeps and Start for newStylePool.
--   Download: services/download_manager.go, the table; Download.Transfer has downloadWithProgress,
--     and Resume, Whole, Rounds, Sound, Retries and Table are what is proved of them.
--   Cleaner: services/cache_cleaner.go, one cleaner and its rounds; Cleaner.Registry has the table of
--     cleaners and the size of a folder.
--   Toucher: services/file_toucher.go.
--   Names: services/sanitize.go, with filepath.Clean written out.
--   Etag: handlers/etag.go, with the white space of strings.TrimSpace written out; Trim has an
--     independent description of it, and Match the comparison with a header.
--   ExpiryHeap: services/expiry_queue.go, expiryHeap under Go's container/heap, with Order, Up, Down,
--     Fix, Push and Take for what its functions keep. A pointer is a number that is not in use yet.
--   ExpiryQueue: services/expiry_queue.go, Add, Unown and sweep as add, unown and sweep. Valid is the
--     invariant, Addition, Extension and Removal are the branches of Add, Schedule is the abstract
--     schedule, Sweeping the sweep, and Trace puts sequences of calls against the schedule.
--   StaticMap: models/static_map.go and models/image_format.go, the request for a map and its paths.
--     StaticMap.Generate is GenerateStaticMap, ensureBase and generateStaticMap of
--     handlers/static_map.go over CompositeCache, with Generate.Sound; StaticMap.Tiles is the choice
--     of tiles for an external style.
--   Serving: handleRequest of handlers/static_map.go and handlePregenerateResponseBytes of
--     handlers/common.go, on top of StaticMap.Generate, ExpiryQueue, AtomicFile and Etag. Accept is
--     its checks, Lifetime the times to live, Save the saving of an image for later, Respond the
--     responses. What happens to the disk until the image is there is an argument, and a response names the call of http.ServeContent, whose
--     treatment of conditional and range requests belongs to net/http.
--   MultiStaticMap: models/multi_static_map.go and the composition of a grid in
--     utils/image_utils_native.go; Compose has the picture that a grid stands for.
--   Leaf: the #if blocks of utils/leaf_to_jet.go, splitIfBody and convertIfBlock, and
--     findConditionEnd of utils/leaf.go. Leaf.Convert has convertIfStatements, with
--     Convert.Endif and Convert.Replace for one round of it; Nesting and Chains are the bodies that
--     are meant, Scanning and Split what the scan finds in them; Templates are templates with blocks
--     in blocks, with Chained, Text, Unroll and Whole for the rounds of the loop.
--   AtomicFile: fileutil/atomic.go.
--   Environment: config/config.go, the readers of variables, and middleware/auth.go.
--   Settings: services/runtime_settings.go, with the steps of other goroutines between those of a
--     call as arguments, and the counters of models/hit_ratio.go.
--   Tests: runs at concrete inputs.
--
-- How the code is read. A method that holds a lock from its first line to its last is a function on
-- the state. Where a method lets go of the lock, each locked part is a function or a step of its own,
-- and a schedule is a list of steps. What the operating system, the network, the clock or the child
-- process does is an argument: the list of what each call returns, in the order of the calls. Keys,
-- images and file names are parameters with a decidable equality where the code compares them. Log
-- lines and metrics are left out.
--
-- Loops. The eviction loops take fuel, and give none when it runs out; one round for every entry of
-- the cache and one more is enough, which the theorems on them prove. The loop of the prefix writer
-- takes one round for each byte and one more, and the loop over the batches of files one for each
-- file. Sifting in the heap takes one round for each slot, and a sweep one for each item and one more.
-- A user of the composite cache gives each call two rounds more than it has entries. The download
-- loop has no fuel: it takes one attempt of the network for each round, and is still running when
-- there are no more attempts; the loop of a toggle takes the steps of others in each of its rounds
-- in the same way. The scans of templates pass over the bytes of a directive one by
-- one, and the loop over their blocks takes one round for each block and one more.
--
-- Numbers. Counts and byte counts are natural numbers; limits that come from the configuration are
-- signed, since the code does not check them. The four bytes of a frame's length are computed with
-- the wrap-around of a 32-bit integer, and a time to live and the age
-- of a file that the cleaner allows in nanoseconds with that of a 64-bit one. A time is the number of nanoseconds since the zero time of Go, and a floating-point number is a
-- multiple of the least positive one. The percentage of a download is kept as the fraction that the
-- code computes in floating point.
--
-- Shared work. A call of singleflight runs its callback, or has the result of another run of the
-- callback for the same key, which is an argument together with the cache that it met. What other
-- requests do with the cache in between is a list of its calls.
--
-- Not modelled: the other HTTP handlers and pages, image decoding and drawing, the loops, variables
-- and regular expressions of templates, third-party template and map programs, the PNG codec, which is a copy of Go's, and the collection of metrics.
pub mod Prelude
pub mod Lru
pub mod TileCache
pub mod MarkerCache
pub mod CompositeCache
pub mod Frame
pub mod Worker
pub mod Pool
pub mod Download
pub mod Toucher
pub mod Cleaner
pub mod Tests
pub mod Names
pub mod Etag
pub mod NodePool
pub mod Settings
pub mod Environment
pub mod ExpiryHeap
pub mod ExpiryQueue
pub mod Leaf
pub mod StaticMap
pub mod Serving
pub mod AtomicFile
pub mod MultiStaticMap
