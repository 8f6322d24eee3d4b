-- ===== src/FrameBuffer.antt =====
-- cpp/src/frame-buffer.cpp: slots that assemble a sample from its segments, the pool of slots, the
-- buffer that lends them out, and the playback queue over it.
pub mod Names
pub mod SampleMap
pub mod SlotState
pub mod Slot
pub mod Buffer
pub mod Queue
