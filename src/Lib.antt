-- ===== src/Lib.antt =====
-- A model of the serving path of a vector search that keeps its graph and vectors on a CXL-attached
-- SSD, with a window of SSD pages in DRAM, and the laws of its parts.
--
-- The parts and the files that model them:
--   * serving/dram_window.hpp (DramWindow): the page window. DramWindow/State has the fields of the
--     struct and flush, the soft pins and init; DramWindow/Frames the clock eviction;
--     DramWindow/Fills reserve_fill, commit_fill and abort_fill; DramWindow/Promote promotion, pins
--     and installs; DramWindow/Reads the copies and lookups. `*_unlocked` functions have their name
--     without that ending. IsSound is the invariant of the frame table: the map and the keys of the
--     frames agree, and a frame holds the bytes of its page of the SSD.
--   * serving/promote_pipe.hpp (PromotePipe): PromotePipe has the calls of the search thread and the
--     two halves of a worker's round; PromotePipe/Runs has their invariant, and
--     PromotePipe/Requests runs them in any order and notes the requests. The field `taken` is a
--     ghost: the jobs that workers hold between the two halves.
--   * serving/hide_fill.hpp: HideFill has HideInflight and hide_pump, which commits or installs pages
--     of the window; HideFill/Issue and HideFill/Extents the choice of pages of hide_issue and
--     hide_extent_run, HideFill/Stripes hide_stripe_fill (HideFill/Rounded has what it adds),
--     HideFill/Bundles and HideFill/Collect the collectors of pages; HideFill/Jobs has the jobs that an issue hands to the copy pool, and
--     HideFill/Orders runs them; HideFill/Waits is hide_wait; HideFill/Pipe is HidePipe, which owns
--     32 fills and the window.
--   * serving/vmem_prefetch.hpp: Vmem, the batches that go to the device.
--   * serving/cont_batch.hpp: Scheduler, the decisions of the thread that interleaves queries.
--   * serving/placement.hpp: Placement, where records lie in the image, and which lie on a page.
--   * serving/metrics.hpp: Metrics, the counters that the window and the fills keep.
--   * serving/prefetch.hpp: Prefetch, the queue of the asynchronous prefetcher;
--     serving/score_cache.hpp: ScoreCache; serving/inflight_trace.hpp: InflightTrace.
--   * serving/hot_set.hpp: HotSet, the frequency of records, with which the window is pinned.
--   * serving/search_beam.cpp: Beam is the candidate list of a PQ query and its loop (pqq_insert,
--     pqq_beam, pqq_finish), with the distances as a parameter that has an order; Query is PqQ with
--     pqq_issue and pqq_rank, and PrefetchHub of serving/cont_batch.hpp. HideFill/Reads is how a
--     scorer reads a vector (vec_src, copy_vec), HideFill/Ranges and HideFill/Vectors what it gets
--     under each score. So the beam chooses records, an issue names their pages, the pumps bring
--     them in, and pqq_rank scores the bytes. Hop is P3Q, the query that scores as pages come in.
--   * serving/page_copy_pool.hpp: PageCopyPool; PageCopyPool/Runs runs the search thread and the
--     workers in any order, and its field `running` has the jobs in local variables of workers.
--   * tools/reorder_layout_bfs.cpp: Reorder, the new order of the records and the layout of the
--     image; Reorder/Regions reads its header with Placement. tools/pack_layout_bundle.cpp: Bundle,
--     its orders by a trace, by a file and by bundles, with the inverted edges (Bundle/Edges), the
--     bucket queue (Bundle/Buckets) and the main loop (Bundle/Blocks);
--     tools/pack_layout_pagebin.cpp: Pagebin. Both use the assignment of Reorder.
--   * tools/remap_diskann_pages.cpp: Remap, the pairs of each mode, their slots, and the pages of
--     --mode extent. The slots are an Order of Reorder, whose new_to_old is slot_to_id, which the
--     program fills when it writes the image.
--   * motivation_exps/include/store.hpp and beam.hpp: Store, RecordCache and the fetches through it.
--
-- How the code is read. Sizes and offsets are natural numbers; counters wrap at their width
-- (Base/Words), and `off & ~(page_bytes - 1)` is the mask on 64 bits. Arrays
-- indexed by a frame or slot are functions; memories and the SSD image are functions from an offset
-- to a byte. An operation that holds the mutex of the window is one step. Times
-- (promote_ns) and locks have no counterpart.
--
-- Loops are structural on the rounds they make: a loop over pages gets the number of bytes it spans,
-- and a copy loop the number of bytes to copy, since each round moves on by one byte at least;
-- diskann_stride_for gets the record's size, since each round at least adds one.
--
-- The beam gets as many rounds as the table of codes has records, and the packing of the order as
-- many as there are records, since each round takes another; an insertion into RecordCache gets one
-- more than the records cached.
--
-- The main loop of the bundles gets a round for each entry that ever enters the buckets: one for each
-- record and one for each word of the graph, and one more. hide_wait gets the flags that the workers
-- have set at each of its pumps.
--
-- The ioctls of the device are parameters; what a batch does to the memory is a hypothesis of the
-- theorems that need it. A job of an issue is one step, as the jobs write apart from one another.
--
-- A loop over pages does not wrap at 2^64, which it could on the topmost page only.
--
-- Not modelled: wait_covering, an issue that stalls, wait_done and stop_join of PromotePipe,
-- floating-point arithmetic (distances, inner products and ratios), printing, the loops that step
-- several queries, the other layout tools, the measures and files of those modelled, the weights of
-- the pairs of --mode cooccur (its edges come sorted), PageCache and the experiments.
pub mod Base
pub mod Metrics
pub mod DramWindow
pub mod Scheduler
pub mod Placement
pub mod PageCopyPool
pub mod Pagebin
pub mod PromotePipe
pub mod HideFill
pub mod HotSet
pub mod Beam
pub mod Bundle
pub mod Query
pub mod Hop
pub mod Remap
pub mod Reorder
pub mod Store
pub mod InflightTrace
pub mod ScoreCache
pub mod Prefetch
pub mod Tests
pub mod Vmem
