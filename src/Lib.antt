-- ===== src/Lib.antt =====
-- ndnrtc: the consumer side of the library, that fetches a media stream over NDN.
--
-- A consumer sends Interests for the segments of samples (frames) and puts the Data that comes into
-- slots of a buffer, until a sample can be played. How many samples may be outstanding is a window.
-- A state machine starts the stream, adjusts the window and falls back when the stream starves.
--
-- The parts, from cpp/:
--   src/segment-controller.cpp, src/periodic.cpp  SegmentController: what the face's callbacks tell
--     the observers, and the timer that announces starvation. `create`, `set_is_active`,
--     `periodic_invocation`, `fire`, `on_data`, `on_timeout` and `on_network_nack` are the methods;
--     each returns the new state and the notices to the observers.
--   src/frame-buffer.cpp  FrameBuffer: Names has what the buffer reads of names, Interests and
--     segments, SampleMap a std::map sorted by names, SlotState and Slot the class BufferSlot, Buffer the classes
--     SlotPool and Buffer, and Queue the class PlaybackQueue, which observes the buffer.
--   src/frame-buffer.cpp  SlotReading: `read_packet` of VideoFrameSlot and `read_bundle` of
--     AudioBundleSlot, on the segments of a slot in the order of their names.
--   src/buffer-control.cpp  BufferControl: which segments reach the buffer, and what is announced of
--     them.
--   src/interest-control.cpp  InterestControl: the window and its default strategy.
--   src/latency-control.cpp  LatencyControl: two estimators, of how evenly samples arrive and of
--     changes of the delay, and the commands to shrink or to grow the pipeline.
--   src/pipeliner.cpp  Pipeliner: it fills the window with Interests for samples and gives these to
--     the buffer, and asks for the segments that a slot misses.
--   src/pipeline-control-state-machine.cpp, src/pipeline-control.cpp  PipelineControl: the states and
--     transitions of the machine, and PipelineControl as its observer, that restarts a machine which
--     fell back to Idle.
--   src/playout-impl.cpp, src/jitter-timing.cpp, src/video-playout-impl.cpp  Playout: the loop, the
--     timing of its waits, and the choice of the frames that are decoded.
--   src/playout-control.cpp  PlayoutControl: when playout starts and stops.
--   src/estimators.cpp  Estimators: the windows, Average, FreqMeter (`tick`) and Filter (`smooth`).
--   src/sample-estimator.cpp, src/drd-estimator.cpp  SampleEstimator and DrdEstimator: the averages that
--     they keep; `measured` is DrdEstimator::newValue.
--   src/interest-queue.cpp  InterestQueue: entries with deadlines, and the calls that drain them.
--     Priorities are objects in a store, since the Interests of a batch share one.
--   src/packet-publisher.hpp  PacketPublisher: what is done with pending Interests after a packet.
--   src/rtx-controller.cpp  RetransmissionController: the slots that it watches, by the numbers of the
--     slot objects, which the buffer reuses.
--   src/segment-fetcher.cpp  SegmentFetcher: segments one after the other, joined.
--   src/network-data.hpp, src/frame-data.hpp, src/frame-data.cpp  Packets: DataPacketT, HeaderPacketT and
--     DataSegment. `scan` is the loop of `reinit`, `slice` and `merge` are the static methods.
--   src/name-components.cpp  Naming: NamespaceInfo, `extract_info`, `get_prefix` and `get_suffix`.
--   include/name-components.hpp  Media: the classes of samples and segments.
--
-- How the parts meet: the segment controller's notices are the machine's events; the machine commands
-- the pipeliner, the window, the buffer and playout, which its model takes as one interface, the
-- record `Collaborators`; where a collaborator throws, `dispatch` ends in `collaborator_threw`, with the
-- machine as the exception leaves it. The pipeliner's model works on the models of the buffer and of the window.
-- A buffer that received a segment calls the playback queue, in `deliver`.
--
-- State is a record, and an operation is a function from a state to a state. An operation that may
-- throw returns an `Attempt`, which has the state that it leaves behind in either case; a failed
-- assertion and a null pointer are `none`. Slots are values: a slot is in the pool, among the active
-- ones or among the reserved ones, and moves between them. 32-bit numbers of the window are words,
-- with `% 2 ^ 32` written out in Base.Words; timestamps and counters are natural numbers. The weights
-- of segments are counted in halves, since a parity segment weighs 0.5.
--
-- Parameters: the components of a name (`Components`), with what the NDN library documents of them
-- (`ComponentLaws`); the pending Interests of the memory cache (`pending`); the arithmetic of doubles (`Double`), which is left open; the canonical
-- order of names (`Order`), a total order; the collaborators of the machine; the names, estimates and
-- queue lengths that the pipeliner asks for (`Outside`); the averages of the latency control, which are
-- another file's (`Averages`); the arithmetic of the estimators (`Doubles` of Estimators), exact on integers
-- of a bounded size (`IsExact`); std::priority_queue (`PriorityQueue`), with what the standard says of a heap
-- (`HeapLaws`); the decoder of OpenFEC (`decode`); what playout control computes with doubles (`Doubles` of PlayoutControl).
--
-- Fuel: `dispatch` is called again from inside a transition, at most one call deep below a restart,
-- so `enough`, which is 2, always suffices. `fill_up_pipeline` ends with fuel for one round more than
-- the window has room. `slice_loop` has fuel for as many rounds as there are bytes, and `drain_loop`
-- for as many as there are entries.
--
-- Not modelled: encoding, decoding and rendering (WebRTC), forward error correction (OpenFEC),
-- signing and validation (the NDN library), storage (RocksDB), threads and locks, logs, and most
-- of the producer's side.
pub mod Base
pub mod Media
pub mod Naming
pub mod Packets
pub mod Playout
pub mod PlayoutControl
pub mod InterestControl
pub mod PipelineControl
pub mod Estimators
pub mod FrameBuffer
pub mod SlotReading
pub mod BufferControl
pub mod SegmentController
pub mod LatencyControl
pub mod InterestQueue
pub mod Pipeliner
pub mod DrdEstimator
pub mod SampleEstimator
pub mod PacketPublisher
pub mod RetransmissionController
pub mod SegmentFetcher
mod Tests
