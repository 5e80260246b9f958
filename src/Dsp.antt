-- ===== src/Dsp.antt =====
-- The dsp library.
pub mod RingBuffer
pub mod Float
pub mod FixedPoint
pub mod Adsr
pub mod SmootherBank
pub mod SmoothedValue
